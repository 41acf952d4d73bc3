-- ===== src/LoadBalancer/Filing.antt =====
-- Histories of calls of Services/utils/load_balancer.cpp, and the service under which each instance
-- is filed.
use mathlib.Core.List.Memᴰ
use qt_web_server_chat.Base.{
  ℕ, ◌+◌, ◌%◌, ◌≡◌, refl, ap, ◌∙◌, inl, inr, String, Bool, some, List, [], ◌∷◌, arith, ◌==◌, eq_iff,
  length, get_elem?, Memᴰ, mem-erase_first, mem-update_first, mem-keep_if, lookup, insert,
  lookup_or, lookup_or-insert, lookup_or-some, Bool-cases, Option-cases,
}
use qt_web_server_chat.LoadBalancer.{
  ServiceInstance, LoadBalancer, init, at_address, healthy, healthy_instances, set_health,
  service_instance, add_service_instance, remove_service_instance, update_health_status,
  get_service_instances, round_robin, select, get_next_healthy_instance,
}
use qt_web_server_chat.LoadBalancer.RoundRobin.{after_calls, round_robin_rotation}

abbrev pub IsFiled : LoadBalancer → Type 0
IsFiled lb =
    (name : String) (i : ServiceInstance)
    → Memᴰ i (get_service_instances lb name)
    → i.service_name ≡ name

pub data Call : Type 0 where
  adds : String → String → ℕ → ℕ → Call
  removes : String → String → ℕ → Call
  marks : String → String → ℕ → Bool → Call
  picks : (ℕ → ℕ → ℕ) → String → String → Call

unfoldable pub step : LoadBalancer → Call → LoadBalancer
step lb (adds name host port weight) = add_service_instance lb name host port weight
step lb (removes name host port) = remove_service_instance lb name host port
step lb (marks name host port is_healthy) = update_health_status lb name host port is_healthy
step lb (picks draw name algorithm) = (get_next_healthy_instance draw lb name algorithm).1

unfoldable pub run : LoadBalancer → List Call → LoadBalancer
run lb [] = lb
run lb (c ∷ cs) = run (step lb c) cs

insert-IsFiled :
    (lb : LoadBalancer) (name : String) (is : List ServiceInstance)
    → IsFiled lb
    → ((i : ServiceInstance) → Memᴰ i is → i.service_name ≡ name)
    → IsFiled (record lb { service_instances = insert name is lb.service_instances })
unfolding get_service_instances
insert-IsFiled lb name is filed new j i m = elim (Bool-cases (name == j)) [
  | inl same ↦
      new i (rw (lookup_or-insert [] name j is lb.service_instances, same) at m)
      ∙ (eq_iff name j).0 same
  | inr other ↦ filed j i (rw (lookup_or-insert [] name j is lb.service_instances, other) at m)
]

round_robin-instances :
    (lb : LoadBalancer) (is : List ServiceInstance)
    → (round_robin lb is).1.service_instances ≡ lb.service_instances
unfolding round_robin
round_robin-instances lb [] = refl
round_robin-instances lb (i ∷ is) = refl

-- Choosing an instance changes no vector.
pub get_next-instances :
    (draw : ℕ → ℕ → ℕ) (lb : LoadBalancer) (name algorithm : String)
    → (get_next_healthy_instance draw lb name algorithm).1.service_instances ≡ lb.service_instances
unfolding get_next_healthy_instance select
get_next-instances draw lb name algorithm = elim (Option-cases (lookup name lb.service_instances)) [
  | inl e ↦ rw (e, get_next_healthy_instance) refl
  | inr ([], e) ↦ rw (e, get_next_healthy_instance) refl
  | inr (x ∷ is, e) ↦
      rw (e, get_next_healthy_instance)
        (ground (arith, round_robin-instances lb (healthy_instances (x ∷ is))))
]

pub step-IsFiled : (lb : LoadBalancer) (c : Call) → IsFiled lb → IsFiled (step lb c)
unfolding step add_service_instance remove_service_instance update_health_status
    get_service_instances
step-IsFiled lb (adds name host port weight) filed =
    insert-IsFiled (record lb { current_indices = insert name 0 lb.current_indices }) name _ filed
      λ i m. elim (Memᴰ.append_cases (lookup_or [] name lb.service_instances) m) [
        | inl old ↦ filed name i old
        | inr new ↦
            let same : i ≡ record (service_instance name host port) { weight = weight } =
              Memᴰ.eq_of_singleton new in
            ap (λ (j : ServiceInstance). j.service_name) same
      ]
step-IsFiled lb (removes name host port) filed =
    insert-IsFiled lb name _ filed λ i m. filed name i (mem-erase_first (at_address host port) _ m)
step-IsFiled lb (marks name host port is_healthy) filed =
    elim (Option-cases (lookup name lb.service_instances)) [
      | inl e ↦ rw (e, update_health_status) filed
      | inr (is, e) ↦
          rw (e, update_health_status)
            (insert-IsFiled lb name _ filed λ i m.
              let (c, n, same) =
                mem-update_first (at_address host port) (set_health is_healthy) is m in
              let own : c.service_name ≡ name = filed name c (rw (lookup_or-some [] name _ e) n) in
              elim same [
                | inl q ↦ ap (λ (j : ServiceInstance). j.service_name) q ∙ own
                | inr q ↦ ap (λ (j : ServiceInstance). j.service_name) q ∙ own
              ])
    ]
step-IsFiled lb (picks draw name algorithm) filed =
    λ j i m. filed j i (rw (get_next-instances draw lb name algorithm) at m)

pub run-IsFiled : (lb : LoadBalancer) (cs : List Call) → IsFiled lb → IsFiled (run lb cs)
unfolding run
run-IsFiled lb [] filed = filed
run-IsFiled lb (c ∷ cs) filed = run-IsFiled (step lb c) cs (step-IsFiled lb c filed)

IsFiled-init : IsFiled init
unfolding get_service_instances lookup_or lookup
IsFiled-init name i m = absurd (Memᴰ.not-nil m)

-- After any history of calls on a new balancer, consecutive round-robin calls for a service go
-- through its healthy instances in order: the k-th, counted from 0, returns the one at the stored
-- index plus k + 1, modulo their number.
pub run_rotation :
    (draw : ℕ → ℕ → ℕ) (cs : List Call) (name : String) (all : List ServiceInstance)
    (i : ServiceInstance) (is : List ServiceInstance)
    → lookup name (run init cs).service_instances ≡ some all
    → healthy_instances all ≡ i ∷ is
    → (k : ℕ)
    → (get_next_healthy_instance draw
        (after_calls draw (run init cs) name "round_robin" k)
        name
        "round_robin").0
      ≡ get_elem?
          (i ∷ is)
          ((lookup_or 0 name (run init cs).current_indices + k + 1) % length (i ∷ is))
unfolding get_service_instances
run_rotation draw cs name all i is known up k =
    round_robin_rotation draw (run init cs) name all i is known up
      (run-IsFiled init cs IsFiled-init name i
        (rw (lookup_or-some [] name _ known) (mem-keep_if healthy all (rw up (Memᴰ.head refl))).0))
      k
