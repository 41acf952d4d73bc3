-- ===== src/ServiceRegistry.antt =====
-- Services/utils/service_registry.{h,cpp}: the registered services, and the balancer that is kept
-- up to date with them. Each method holds `mutex_` from its start to its end and calls no other
-- method of the registry, so the mutex is left out. A
-- `std::map` is traversed in the order of its keys, and the table here in its own.
pub mod HealthChecker
pub mod Agreement
pub mod Probes
pub mod Replay
mod Tests
use qt_web_server_chat.Base.{
  ℕ, String, Bool, List, [], ◌∷◌, ◌++◌, ◌&&◌, ◌==◌, eqb, erase_first, Dict, insert, lookup_or,
}
use qt_web_server_chat.LoadBalancer.{
  ServiceInstance, LoadBalancer, add_service_instance, remove_service_instance,
}

pub record ServiceRegistration : Type 0 where
  pub service_name : String
  pub host : String
  pub port : ℕ
  pub weight : ℕ
  pub metadata : String

pub record ServiceRegistry : Type 0 where
  pub load_balancer : LoadBalancer
  pub registered_services : Dict (List ServiceRegistration)

-- The test of the `find_if` call.
abbrev pub at_address : String → ℕ → ServiceRegistration → Bool
at_address host port r = (r.host == host) && eqb r.port port

abbrev pub registration : String → String → ℕ → ℕ → String → ServiceRegistration
registration name h p w meta = record {
  service_name = name;
  host = h;
  port = p;
  weight = w;
  metadata = meta;
}

unfoldable pub get_registered_services : ServiceRegistry → String → List ServiceRegistration
get_registered_services r name = lookup_or [] name r.registered_services

unfoldable pub register_service :
    ServiceRegistry → String → String → ℕ → ℕ → String → ServiceRegistry
register_service r name host port weight metadata = record {
  registered_services =
      insert name
        (lookup_or [] name r.registered_services
          ++ registration name host port weight metadata ∷ [])
        r.registered_services;
  load_balancer = add_service_instance r.load_balancer name host port weight;
}

-- `registeredServices_[serviceName]` makes an empty entry for an unknown service.
unfoldable pub unregister_service : ServiceRegistry → String → String → ℕ → ServiceRegistry
unregister_service r name host port = record {
  registered_services =
      insert name (erase_first (at_address host port) (lookup_or [] name r.registered_services))
        r.registered_services;
  load_balancer = remove_service_instance r.load_balancer name host port;
}

unfoldable pub get_all_registered_services : ServiceRegistry → Dict (List ServiceRegistration)
get_all_registered_services r = r.registered_services

-- getServiceInstances is a stub in the source, which returns an empty vector.
unfoldable pub get_service_instances : ServiceRegistry → String → List ServiceInstance
get_service_instances r name = []
