-- ===== src/LoadBalancer/RoundRobin.antt =====
-- The rotation of getNextInstanceRoundRobin (Services/utils/load_balancer.cpp).
use native.Mathlib.Nat.{
  mod-lt, mod-add-mod, mod-eq_of_lt, add-zero, mod-mod, add-mod-mod, add-mod_right,
}
use qt_web_server_chat.Base.{
  ℕ, zero, suc, ◌+◌, ◌-◌, ◌%◌, ◌<◌, ◌≡◌, refl, sym, ap, ◌∙◌, String, false, Option, some, List, [],
  ◌∷◌, arith, ◌==◌, length, get_elem?, lookup, lookup_or, lookup_or-insert_self,
}
use qt_web_server_chat.LoadBalancer.{
  ServiceInstance, LoadBalancer, healthy_instances, round_robin, select, get_next_healthy_instance,
}

-- The balancer after a number of consecutive calls for one service.
abbrev pub after_calls : (ℕ → ℕ → ℕ) → LoadBalancer → String → String → ℕ → LoadBalancer
after_calls draw lb name algorithm zero = lb
after_calls draw lb name algorithm (suc k) =
    (get_next_healthy_instance draw (after_calls draw lb name algorithm k) name algorithm).1

-- One step of the rotation, on indices that are known modulo `n`.
shift_index : (a c k n : ℕ) → a % n ≡ (c + k) % n → (a + 1) % n ≡ (c + k + 1) % n
shift_index a c k n h =
    sym (mod-add-mod a n 1) ∙ ap (λ (t : ℕ). (t + 1) % n) h ∙ mod-add-mod (c + k) n 1

next_index : (a c k n : ℕ) → a % n ≡ (c + k) % n → (a + 1) % n % n ≡ (c + suc k) % n
next_index a c k n h =
    mod-mod (a + 1) n ∙ shift_index a c k n h ∙ ap (λ (t : ℕ). t % n) (omega arith)

-- The call on which position `j` has its turn.
turn_of : (c j n : ℕ) → j < n → (c + (j + (n - (c + 1) % n)) % n + 1) % n ≡ j
turn_of c j n h =
    ap (λ (t : ℕ). t % n) (omega arith)
    ∙ add-mod-mod (c + 1) (j + (n - (c + 1) % n)) n
    ∙ sym (mod-add-mod (c + 1) n (j + (n - (c + 1) % n)))
    ∙ ap (λ (t : ℕ). t % n) (omega (arith, mod-lt (c + 1) {m = n}))
    ∙ add-mod_right j n
    ∙ mod-eq_of_lt h

-- A service whose healthy instances are filed under its own name.
module _ (draw : ℕ → ℕ → ℕ) (name algorithm : String)
    (not_weighted : (algorithm == "weighted_round_robin") ≡ false)
    (not_least : (algorithm == "least_connections") ≡ false) (x : ServiceInstance)
    (xs : List ServiceInstance) (i : ServiceInstance) (is : List ServiceInstance)
    (up : healthy_instances (x ∷ xs) ≡ i ∷ is) (filed : i.service_name ≡ name) where
  call-result :
      (lb : LoadBalancer)
      → lookup name lb.service_instances ≡ some (x ∷ xs)
      → get_next_healthy_instance draw lb name algorithm ≡ round_robin lb (i ∷ is)
  unfolding get_next_healthy_instance select
  call-result lb h = rw (h, get_next_healthy_instance) (rw (not_weighted, not_least, up) refl)

  call-index :
      (lb : LoadBalancer)
      → lookup name lb.service_instances ≡ some (x ∷ xs)
      → lookup_or 0 name (get_next_healthy_instance draw lb name algorithm).1.current_indices
        ≡ (lookup_or 0 name lb.current_indices + 1) % length (i ∷ is)
  unfolding round_robin
  call-index lb h = rw (call-result lb h) (rw filed (lookup_or-insert_self 0 name _ _))

  turn-result :
      (lb : LoadBalancer)
      → (round_robin lb (i ∷ is)).0
        ≡ get_elem? (i ∷ is) ((lookup_or 0 name lb.current_indices + 1) % length (i ∷ is))
  unfolding round_robin
  turn-result lb =
      ap
        (λ (s : String).
          get_elem? (i ∷ is) ((lookup_or 0 s lb.current_indices + 1) % length (i ∷ is)))
        filed

  call-instances :
      (lb : LoadBalancer)
      → lookup name lb.service_instances ≡ some (x ∷ xs)
      → (get_next_healthy_instance draw lb name algorithm).1.service_instances
        ≡ lb.service_instances
  unfolding round_robin
  call-instances lb h = rw (call-result lb h) refl

  module _ (lb : LoadBalancer) (known : lookup name lb.service_instances ≡ some (x ∷ xs)) where
    after_calls-instances :
        (k : ℕ) → (after_calls draw lb name algorithm k).service_instances ≡ lb.service_instances
    after_calls-instances zero = refl
    after_calls-instances (suc k) =
        call-instances _ (ap (lookup name) (after_calls-instances k) ∙ known)
        ∙ after_calls-instances k

    after_calls-index :
        (k : ℕ)
        → lookup_or 0 name (after_calls draw lb name algorithm k).current_indices % length (i ∷ is)
          ≡ (lookup_or 0 name lb.current_indices + k) % length (i ∷ is)
    after_calls-index zero = rw add-zero refl
    after_calls-index (suc k) =
        rw
          (call-index (after_calls draw lb name algorithm k)
            (ap (lookup name) (after_calls-instances k) ∙ known))
          (next_index _ (lookup_or 0 name lb.current_indices) k (length (i ∷ is))
            (after_calls-index k))

    after_calls-result :
        (k : ℕ)
        → (get_next_healthy_instance draw (after_calls draw lb name algorithm k) name algorithm).0
          ≡ get_elem? (i ∷ is) ((lookup_or 0 name lb.current_indices + k + 1) % length (i ∷ is))
    after_calls-result k =
        ap (λ (r : Option ServiceInstance × LoadBalancer). r.0)
          (call-result (after_calls draw lb name algorithm k)
            (ap (lookup name) (after_calls-instances k) ∙ known))
        ∙ turn-result (after_calls draw lb name algorithm k)
        ∙ ap (get_elem? (i ∷ is)) (
            shift_index _ (lookup_or 0 name lb.current_indices) k (length (i ∷ is))
              (after_calls-index k))

-- The k-th of consecutive round-robin calls, counted from 0, returns the healthy instance at the
-- stored index plus k + 1, modulo the number of healthy instances. It is assumed that the first
-- healthy instance is filed under its own service name, as addServiceInstance does.
pub round_robin_rotation :
    (draw : ℕ → ℕ → ℕ) (lb : LoadBalancer) (name : String) (all : List ServiceInstance)
    (i : ServiceInstance) (is : List ServiceInstance)
    → lookup name lb.service_instances ≡ some all
    → healthy_instances all ≡ i ∷ is
    → i.service_name ≡ name
    → (k : ℕ)
    → (get_next_healthy_instance draw
        (after_calls draw lb name "round_robin" k)
        name
        "round_robin").0
      ≡ get_elem? (i ∷ is) ((lookup_or 0 name lb.current_indices + k + 1) % length (i ∷ is))
round_robin_rotation draw lb name [] i is known up filed k = absurd (cc up)
round_robin_rotation draw lb name (x ∷ xs) i is known up filed k =
    after_calls-result draw name "round_robin" refl refl x xs i is up filed lb known k

-- If the first healthy instance of a service is filed under the service's name, then among as many consecutive round-robin calls as there are healthy
-- instances every healthy instance is returned: the one at position j by one of these calls.
pub round_robin_fair :
    (draw : ℕ → ℕ → ℕ) (lb : LoadBalancer) (name : String) (all : List ServiceInstance)
    (i : ServiceInstance) (is : List ServiceInstance)
    → lookup name lb.service_instances ≡ some all
    → healthy_instances all ≡ i ∷ is
    → i.service_name ≡ name
    → (j : ℕ) → j < length (i ∷ is)
    → (k : ℕ) × (k < length (i ∷ is))
      × ((get_next_healthy_instance draw
            (after_calls draw lb name "round_robin" k)
            name
            "round_robin").0
          ≡ get_elem? (i ∷ is) j)
round_robin_fair draw lb name all i is known up filed j h =
    let c = lookup_or 0 name lb.current_indices in
    let n = length (i ∷ is) in
    (
      (j + (n - (c + 1) % n)) % n,
      mod-lt _ (omega arith),
      round_robin_rotation draw lb name all i is known up filed _
          ∙ ap (get_elem? (i ∷ is)) (turn_of c j n h),
    )
