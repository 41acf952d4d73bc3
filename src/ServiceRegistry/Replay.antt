-- ===== src/ServiceRegistry/Replay.antt =====
-- Histories of Services/utils/service_registry.cpp and of the rounds of health_checker.cpp, against a table of
-- addresses.
use qt_web_server_chat.Base.{
  ℕ, ◌≡◌, refl, ap, sym, ◌∙◌, inl, inr, String, List, [], ◌∷◌, ◌++◌, ◌==◌, if◌then◌else◌,
  erase_first, Dict, lookup, lookup_or, lookup_or-insert, Bool-cases, eq_iff,
}
use qt_web_server_chat.LoadBalancer
use qt_web_server_chat.ServiceRegistry.{
  get_all_registered_services, ServiceRegistration, register_service, unregister_service,
}
use qt_web_server_chat.ServiceRegistry.HealthChecker.{
  Sockets, HealthChecker, perform_health_check, check_instances, check_services, check_round,
}
use qt_web_server_chat.ServiceRegistry.Agreement.{
  Address, is_address, registered_addresses, instance_addresses, IsAgreed, registered-append,
  registered-erase, init-IsAgreed, register_service-IsAgreed, unregister_service-IsAgreed,
  check_round-IsAgreed,
}

pub data Step : Type 0 where
  registers : String → String → ℕ → ℕ → String → Step
  unregisters : String → String → ℕ → Step
  checks : Step

-- The addresses of each service.
abbrev pub Table : Type 0
Table = String → List Address

unfoldable pub apply : Step → Table → Table
apply (registers name host port weight metadata) f j =
    if name == j then f j ++ (host, port) ∷ [] else f j
apply (unregisters name host port) f j =
    if name == j then erase_first (is_address host port) (f j) else f j
apply checks f j = f j

unfoldable pub replay : List Step → Table → Table
unfolding apply
replay [] f = f
replay (e ∷ es) f = replay es (apply e f)

-- A checker whose registry has no services.
abbrev pub new_checker : {Net : Type 0} → Net → HealthChecker Net
new_checker n = record {
  net = n;
  registry = record { registered_services = []; load_balancer = LoadBalancer.init };
}

module _ {Net : Type 0} (sockets : Sockets Net) where
  unfoldable pub step : Step → HealthChecker Net → HealthChecker Net
  step (registers name host port weight metadata) c = record c {
    registry = register_service c.registry name host port weight metadata;
  }
  step (unregisters name host port) c = record c {
    registry = unregister_service c.registry name host port;
  }
  step checks c = check_round sockets c

  unfoldable pub run : List Step → HealthChecker Net → HealthChecker Net
  unfolding step
  run [] c = c
  run (e ∷ es) c = run es (step e c)

  check_instances-registered :
      (name : String) (rs : List ServiceRegistration) (c : HealthChecker Net)
      → (check_instances sockets name rs c).registry.registered_services
        ≡ c.registry.registered_services
  unfolding check_instances perform_health_check
  check_instances-registered name [] c = refl
  check_instances-registered name (r ∷ rs) c =
      check_instances-registered name rs (perform_health_check sockets name r.host r.port c)

  check_services-registered :
      (services : Dict (List ServiceRegistration)) (c : HealthChecker Net)
      → (check_services sockets services c).registry.registered_services
        ≡ c.registry.registered_services
  unfolding check_services
  check_services-registered [] c = refl
  check_services-registered ((name, rs) ∷ services) c =
      check_services-registered services (check_instances sockets name rs c)
      ∙ check_instances-registered name rs c

  -- The registry lists the table's addresses, and agrees with its balancer.
  Shows : Table → HealthChecker Net → Type 0
  Shows f c =
      ((j : String) → registered_addresses (lookup_or [] j c.registry.registered_services) ≡ f j)
      × IsAgreed c.registry

  step-Shows :
      (e : Step) (f : Table) (c : HealthChecker Net) → Shows f c → Shows (apply e f) (step e c)
  unfolding Shows apply step register_service unregister_service check_round
  step-Shows (registers name host port weight metadata) f c h = (
    (λ j. elim (Bool-cases (name == j)) [
      | inl e ↦
          rw (lookup_or-insert, e)
            (registered-append (lookup_or [] name c.registry.registered_services) _
              ∙ ap (λ rest. rest ++ (host, port) ∷ []) (h.0 name ∙ ap f ((eq_iff name j).0 e)))
      | inr e ↦ rw (lookup_or-insert, e) (h.0 j)
    ]),
    register_service-IsAgreed c.registry name host port weight metadata h.1,
  )
  step-Shows (unregisters name host port) f c h = (
    (λ j. elim (Bool-cases (name == j)) [
      | inl e ↦
          rw (lookup_or-insert, e)
            (registered-erase host port (lookup_or [] name c.registry.registered_services)
              ∙ ap (erase_first (is_address host port)) (h.0 name ∙ ap f ((eq_iff name j).0 e)))
      | inr e ↦ rw (lookup_or-insert, e) (h.0 j)
    ]),
    unregister_service-IsAgreed c.registry name host port h.1,
  )
  step-Shows checks f c h = (
    (λ j.
        ap (λ (m : Dict (List ServiceRegistration)). registered_addresses (lookup_or [] j m))
          (check_services-registered (get_all_registered_services c.registry) c)
        ∙ h.0 j),
    check_round-IsAgreed sockets c h.1,
  )

  run-Shows :
      (es : List Step) (f : Table) (c : HealthChecker Net)
      → Shows f c
      → Shows (replay es f) (run es c)
  unfolding run replay
  run-Shows [] f c h = h
  run-Shows (e ∷ es) f c h = run-Shows es (apply e f) (step e c) (step-Shows e f c h)

  -- After any registrations, removals and rounds of health checks on a registry that began without
  -- services, with a new balancer, the registry and the balancer list for every service the same
  -- addresses: those that the same calls leave in an empty table, where a registration puts an
  -- address behind the others, a removal takes the first equal one, and a round changes nothing,
  -- whatever the sockets answer.
  pub run-replay :
      (es : List Step) (net : Net) (j : String)
      → (registered_addresses
            (lookup_or [] j (run es (new_checker net)).registry.registered_services)
          ≡ replay es (λ name. []) j)
        × (instance_addresses
              (lookup_or [] j (run es (new_checker net)).registry.load_balancer.service_instances)
            ≡ replay es (λ name. []) j)
  unfolding Shows lookup_or lookup
  run-replay es net j =
      let h = run-Shows es (λ name. []) (new_checker net) ((λ name. refl), init-IsAgreed) in
      (h.0 j, sym (h.1.at j) ∙ h.0 j)
