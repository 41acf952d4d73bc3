-- ===== src/LoadBalancer/Weighted.antt =====
-- The share of each instance in getNextInstanceWeightedRoundRobin
-- (Services/utils/load_balancer.cpp).
use qt_web_server_chat.Base.{
  ℕ, ◌+◌, ◌≤◌, ◌<◌, ◌≡◌, refl, String, some, List, [], ◌∷◌, ◌++◌, arith, lookup,
}
use qt_web_server_chat.LoadBalancer.{
  ServiceInstance, LoadBalancer, healthy_instances, total_weight, first_reaching, weighted, select,
  get_next_healthy_instance,
}

first_reaching_share :
    (r c : ℕ) (before : List ServiceInstance) (i : ServiceInstance) (after : List ServiceInstance)
    → c + total_weight before < r
    → r ≤ c + total_weight before + i.weight
    → first_reaching r c (before ++ i ∷ after) ≡ some i
unfolding first_reaching
first_reaching_share r c [] i after low high = ground arith
first_reaching_share r c (x ∷ before) i after low high =
    ground (arith, first_reaching_share r (c + x.weight) before i after)

weighted_share_of :
    (draw : ℕ → ℕ → ℕ) (before : List ServiceInstance) (i : ServiceInstance)
    (after : List ServiceInstance)
    → total_weight before < draw 1 (total_weight (before ++ i ∷ after))
    → draw 1 (total_weight (before ++ i ∷ after)) ≤ total_weight before + i.weight
    → weighted draw (before ++ i ∷ after) ≡ some i
unfolding weighted
weighted_share_of draw [] i after low high =
    rw
      (
        first_reaching_share (draw 1 (total_weight (i ∷ after))) 0 [] i after (omega arith)
            (omega arith),
        weighted,
      )
      refl
weighted_share_of draw (x ∷ before) i after low high =
    rw
      (
        first_reaching_share (draw 1 (total_weight (x ∷ before ++ i ∷ after))) 0 (x ∷ before) i
            after (omega arith) (omega arith),
        weighted,
      )
      refl

-- The weighted choice gives each healthy instance as many of the numbers 1, …, total as its weight
-- says: it is returned whenever the number drawn lies above the weights before it and not above
-- these and its own. The balancer is unchanged.
pub weighted_share :
    (draw : ℕ → ℕ → ℕ) (lb : LoadBalancer) (name : String) (all before : List ServiceInstance)
    (i : ServiceInstance) (after : List ServiceInstance)
    → lookup name lb.service_instances ≡ some all
    → healthy_instances all ≡ before ++ i ∷ after
    → total_weight before < draw 1 (total_weight (before ++ i ∷ after))
    → draw 1 (total_weight (before ++ i ∷ after)) ≤ total_weight before + i.weight
    → get_next_healthy_instance draw lb name "weighted_round_robin" ≡ (some i, lb)
unfolding get_next_healthy_instance select
weighted_share draw lb name [] [] i after known up low high = absurd (cc up)
weighted_share draw lb name [] (x ∷ before) i after known up low high = absurd (cc up)
weighted_share draw lb name (x ∷ xs) before i after known up low high =
    rw (known, get_next_healthy_instance)
      (rw up (rw (weighted_share_of draw before i after low high) refl))
