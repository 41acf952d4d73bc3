-- ===== src/ServiceRegistry/Agreement.antt =====
-- Services/utils/service_registry.cpp and health_checker.cpp: the addresses that the registry and
-- its balancer list.
use qt_web_server_chat.Base.{
  ℕ, ◌≡◌, refl, ap, sym, ◌∙◌, inl, inr, String, Bool, ◌&&◌, List, [], ◌∷◌, ◌++◌, arith, ◌==◌, eqb,
  eq_iff, erase_first, update_first, Dict, lookup, insert, lookup_or, lookup_or-insert,
  lookup_or-some, Bool-cases, Option-cases,
}
use qt_web_server_chat.LoadBalancer.{
  ServiceInstance, LoadBalancer, set_health, service_instance, add_service_instance,
  remove_service_instance, update_health_status,
}
use qt_web_server_chat.LoadBalancer
use qt_web_server_chat.ServiceRegistry.{
  get_all_registered_services, ServiceRegistration, ServiceRegistry, at_address, register_service,
  unregister_service,
}
use qt_web_server_chat.ServiceRegistry.HealthChecker.{
  Sockets, HealthChecker, check_service_health, perform_health_check, check_instances,
  check_services, check_round,
}

abbrev pub Address : Type 0
Address = String × ℕ

abbrev pub registered_addresses : List ServiceRegistration → List Address
registered_addresses [] = []
registered_addresses (r ∷ rs) = (r.host, r.port) ∷ registered_addresses rs

abbrev pub instance_addresses : List ServiceInstance → List Address
instance_addresses [] = []
instance_addresses (i ∷ is) = (i.host, i.port) ∷ instance_addresses is

abbrev pub is_address : String → ℕ → Address → Bool
is_address host port a = (a.0 == host) && eqb a.1 port

-- For every service, the registry and the balancer list the same addresses in the same order.
pub record IsAgreed (r : ServiceRegistry) : Type 0 where
  pub at :
      (name : String)
      → registered_addresses (lookup_or [] name r.registered_services)
        ≡ instance_addresses (lookup_or [] name r.load_balancer.service_instances)

pub registered-append :
    (rs ss : List ServiceRegistration)
    → registered_addresses (rs ++ ss) ≡ registered_addresses rs ++ registered_addresses ss
registered-append [] ss = refl
registered-append (r ∷ rs) ss = ap (λ rest. (r.host, r.port) ∷ rest) (registered-append rs ss)

instance-append :
    (is js : List ServiceInstance)
    → instance_addresses (is ++ js) ≡ instance_addresses is ++ instance_addresses js
instance-append [] js = refl
instance-append (i ∷ is) js = ap (λ rest. (i.host, i.port) ∷ rest) (instance-append is js)

module _ (host : String) (port : ℕ) where
  pub registered-erase :
      (rs : List ServiceRegistration)
      → registered_addresses (erase_first (at_address host port) rs)
        ≡ erase_first (is_address host port) (registered_addresses rs)
  registered-erase [] = refl
  registered-erase (r ∷ rs) = ground (arith, registered-erase rs)

  instance-erase :
      (is : List ServiceInstance)
      → instance_addresses (erase_first (LoadBalancer.at_address host port) is)
        ≡ erase_first (is_address host port) (instance_addresses is)
  instance-erase [] = refl
  instance-erase (i ∷ is) = ground (arith, instance-erase is)

  instance-update :
      (up : Bool) (is : List ServiceInstance)
      → instance_addresses (update_first (LoadBalancer.at_address host port) (set_health up) is)
        ≡ instance_addresses is
  instance-update up [] = refl
  instance-update up (i ∷ is) = ground (arith, instance-update up is)

-- A registry without services, with a new balancer, agrees with it.
pub init-IsAgreed :
    IsAgreed (record { registered_services = []; load_balancer = LoadBalancer.init })
unfolding lookup_or lookup
init-IsAgreed = record { at = λ name. refl }

-- Both maps get a new list for one service.
insert-IsAgreed :
    (r : ServiceRegistry) (lb : LoadBalancer) (name : String) (rs : List ServiceRegistration)
    (is : List ServiceInstance)
    → IsAgreed r
    → lb.service_instances ≡ insert name is r.load_balancer.service_instances
    → registered_addresses rs ≡ instance_addresses is
    → IsAgreed
        (record { registered_services = insert name rs r.registered_services; load_balancer = lb })
insert-IsAgreed r lb name rs is h stored same = record {
  at = λ j.
      rw (stored, lookup_or-insert, lookup_or-insert)
        (elim (Bool-cases (name == j)) [ inl e ↦ rw e same | inr e ↦ rw e (h.at j) ]);
}

-- registerService keeps the agreement of the registry and its balancer.
pub register_service-IsAgreed :
    (r : ServiceRegistry) (name host : String) (port weight : ℕ) (metadata : String)
    → IsAgreed r
    → IsAgreed (register_service r name host port weight metadata)
unfolding register_service add_service_instance
register_service-IsAgreed r name host port weight metadata h = insert-IsAgreed r _ name _ _ h refl (
    registered-append (lookup_or [] name r.registered_services) _
    ∙ ap (λ rest. rest ++ (host, port) ∷ []) (h.at name)
    ∙ sym (instance-append (lookup_or [] name r.load_balancer.service_instances) _))

-- unregisterService keeps the agreement of the registry and its balancer.
pub unregister_service-IsAgreed :
    (r : ServiceRegistry) (name host : String) (port : ℕ)
    → IsAgreed r
    → IsAgreed (unregister_service r name host port)
unfolding unregister_service remove_service_instance
unregister_service-IsAgreed r name host port h = insert-IsAgreed r _ name _ _ h refl (
    registered-erase host port (lookup_or [] name r.registered_services)
    ∙ ap (erase_first (is_address host port)) (h.at name)
    ∙ sym (instance-erase host port (lookup_or [] name r.load_balancer.service_instances)))

update_health_status-addresses :
    (lb : LoadBalancer) (name host : String) (port : ℕ) (up : Bool) (j : String)
    → instance_addresses
        (lookup_or [] j (update_health_status lb name host port up).service_instances)
      ≡ instance_addresses (lookup_or [] j lb.service_instances)
unfolding update_health_status
update_health_status-addresses lb name host port up j =
    elim (Option-cases (lookup name lb.service_instances)) [
      | inl e ↦ ground arith
      | inr (is, e) ↦ ground (
        arith,
        instance-update host port up is,
        lookup_or-some [] name lb.service_instances e,
        lookup_or-insert [] name j
            (update_first (LoadBalancer.at_address host port) (set_health up) is)
            lb.service_instances,
        eq_iff name j,
      )
    ]

module _ {Net : Type 0} (sockets : Sockets Net) where
  perform_health_check-IsAgreed :
      (name host : String) (port : ℕ) (c : HealthChecker Net)
      → IsAgreed c.registry
      → IsAgreed (perform_health_check sockets name host port c).registry
  unfolding perform_health_check
  perform_health_check-IsAgreed name host port c h =
      let up = (check_service_health sockets host port c.net).0 in
      record {
        at = λ j.
            h.at j
            ∙ sym (update_health_status-addresses c.registry.load_balancer name host port up j);
      }

  check_instances-IsAgreed :
      (name : String) (rs : List ServiceRegistration) (c : HealthChecker Net)
      → IsAgreed c.registry
      → IsAgreed (check_instances sockets name rs c).registry
  unfolding check_instances
  check_instances-IsAgreed name [] c h = h
  check_instances-IsAgreed name (r ∷ rs) c h =
      check_instances-IsAgreed name rs _ (perform_health_check-IsAgreed name r.host r.port c h)

  check_services-IsAgreed :
      (services : Dict (List ServiceRegistration)) (c : HealthChecker Net)
      → IsAgreed c.registry
      → IsAgreed (check_services sockets services c).registry
  unfolding check_services
  check_services-IsAgreed [] c h = h
  check_services-IsAgreed ((name, rs) ∷ services) c h =
      check_services-IsAgreed services _ (check_instances-IsAgreed name rs c h)

  -- A round of health checks keeps the agreement of the registry and its balancer.
  pub check_round-IsAgreed :
      (c : HealthChecker Net) → IsAgreed c.registry → IsAgreed (check_round sockets c).registry
  unfolding check_round
  check_round-IsAgreed c h = check_services-IsAgreed (get_all_registered_services c.registry) c h
