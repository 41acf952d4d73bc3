-- ===== src/LoadBalancer/Health.antt =====
-- Registration and health marks of Services/utils/load_balancer.cpp.
use mathlib.Core.List.Memᴰ
use qt_web_server_chat.Base.{
  ℕ, ◌≡◌, ap, ◌∙◌, inl, inr, String, true, false, some, List, [], ◌∷◌, ◌++◌, arith, eq_iff, any,
  erase_first, update_first, Memᴰ, lookup, insert, lookup_or, lookup_or-some, lookup_or-none,
  lookup_or-insert_self, Bool-cases, Option-cases,
}
use qt_web_server_chat.LoadBalancer.{
  ServiceInstance, LoadBalancer, at_address, healthy, set_health, service_instance,
  add_service_instance, remove_service_instance, update_health_status, get_service_instances,
  get_next_healthy_instance,
}
use qt_web_server_chat.LoadBalancer.Selection.{get_next_healthy_instance-healthy}

module _ (host : String) (port : ℕ) where
  erase-append_new :
      (i : ServiceInstance) (is : List ServiceInstance)
      → at_address host port i ≡ true
      → any (at_address host port) is ≡ false
      → erase_first (at_address host port) (is ++ i ∷ []) ≡ is
  erase-append_new i [] e fresh = ground arith
  erase-append_new i (x ∷ is) e fresh = ground (arith, erase-append_new i is e)

  none-down :
      (is : List ServiceInstance) {i : ServiceInstance}
      → any (at_address host port) is ≡ false
      → Memᴰ i is
      → at_address host port i ≡ false
  none-down [] fresh m = absurd (Memᴰ.not-nil m)
  none-down (x ∷ is) {i} fresh m = elim (Memᴰ.cases_cons m) [
    | inl e ↦ ap (at_address host port) e ∙ ground arith
    | inr t ↦ none-down is (ground arith) t
  ]

  -- Marking the only instance at an address unhealthy leaves no healthy one there.
  marked_down :
      (is : List ServiceInstance) {i : ServiceInstance}
      → any (at_address host port) (erase_first (at_address host port) is) ≡ false
      → Memᴰ i (update_first (at_address host port) (set_health false) is)
      → i.is_healthy ≡ true
      → at_address host port i ≡ false
  marked_down [] unique m up = absurd (Memᴰ.not-nil m)
  marked_down (x ∷ is) {i} unique m up = elim (Bool-cases (at_address host port x)) [
    | inl here ↦ elim (Memᴰ.cases_cons (rw here at m)) [
      | inl e ↦ absurd (cc (ap healthy e))
      | inr t ↦ none-down is (rw here at unique) t
    ]
    | inr miss ↦ elim (Memᴰ.cases_cons (rw miss at m)) [
      | inl e ↦ ap (at_address host port) e ∙ miss
      | inr t ↦ marked_down is (ground arith) t up
    ]
  ]

get-insert_self :
    (lb : LoadBalancer) (name : String) (is : List ServiceInstance)
    → get_service_instances
        (record lb { service_instances = insert name is lb.service_instances })
        name
      ≡ is
unfolding get_service_instances
get-insert_self lb name is = lookup_or-insert_self [] name is lb.service_instances

-- Adding an instance at an address that the service does not have and removing that address gives
-- back the service's instances.
pub remove-add_service_instance :
    (lb : LoadBalancer) (name host : String) (port weight : ℕ)
    → any (at_address host port) (get_service_instances lb name) ≡ false
    → get_service_instances
        (remove_service_instance (add_service_instance lb name host port weight) name host port)
        name
      ≡ get_service_instances lb name
unfolding get_service_instances add_service_instance remove_service_instance
remove-add_service_instance lb name host port weight fresh =
    lookup_or-insert_self [] name _ _
    ∙ ap (erase_first (at_address host port)) (lookup_or-insert_self [] name _ _)
    ∙ erase-append_new host port _ (lookup_or [] name lb.service_instances) (own_address) fresh
  where
    own_address :
        at_address host port (record (service_instance name host port) { weight = weight }) ≡ true
    own_address = ground (arith, eq_iff host host)

-- After updateHealthStatus has marked an address unhealthy, getNextHealthyInstance returns no
-- instance at that address, whatever the algorithm and the numbers drawn. It is assumed that the
-- service has no second instance at the address: only the first one found is marked.
pub update_health_status-avoids :
    (draw : ℕ → ℕ → ℕ) (lb : LoadBalancer) (name host : String) (port : ℕ) (algorithm : String)
    (i : ServiceInstance)
    → any
        (at_address host port)
        (erase_first (at_address host port) (get_service_instances lb name))
      ≡ false
    → (get_next_healthy_instance draw
        (update_health_status lb name host port false)
        name
        algorithm).0
      ≡ some i
    → at_address host port i ≡ false
unfolding get_service_instances update_health_status
update_health_status-avoids draw lb name host port algorithm i unique h =
    elim (Option-cases (lookup name lb.service_instances)) [
      | inl e ↦
          let found =
            get_next_healthy_instance-healthy draw (update_health_status lb name host port false)
              name algorithm i h in
          absurd
            (Memᴰ.not-nil (rw (e, update_health_status, lookup_or-none [] name _ e) at found.0))
      | inr (is, e) ↦
          let found =
            get_next_healthy_instance-healthy draw (update_health_status lb name host port false)
              name algorithm i h in
          marked_down host port is (rw (lookup_or-some [] name _ e) at unique)
            (rw (e, update_health_status, get-insert_self lb name) at found.0) found.1
    ]
