-- ===== src/ServiceRegistry/HealthChecker.antt =====
-- Services/utils/health_checker.cpp: a connection to each registered service, whose success is its
-- health. The sockets' functions are a parameter: `Net` is the state of the system, and an address
-- is one that `gethostbyname` found. The thread's loop is a sequence of rounds.
use qt_web_server_chat.Base.{ℕ, ◌%◌, String, Bool, false, Option, none, some, List, [], ◌∷◌, Dict}
use qt_web_server_chat.LoadBalancer.{update_health_status}
use qt_web_server_chat.ServiceRegistry.{
  ServiceRegistration, ServiceRegistry, get_all_registered_services,
}

-- `socket` has `none` for a negative descriptor; `connect` has `true` for 0.
pub record Sockets (Net : Type 0) : Type 0 where
  pub socket : Net → Option ℕ × Net
  pub set_timeouts : ℕ → Net → Net
  pub get_host_by_name : String → Net → Option ℕ × Net
  pub connect : ℕ → ℕ → ℕ → Net → Bool × Net
  pub close : ℕ → Net → Net

-- The health checker with the registry and its balancer.
pub record HealthChecker (Net : Type 0) : Type 0 where
  pub net : Net
  pub registry : ServiceRegistry

module _ {Net : Type 0} (sockets : Sockets Net) where
  -- From the socket on; the port is cast to 16 bits.
  unfoldable pub check_socket : String → ℕ → ℕ → Net → Bool × Net
  check_socket host port sock net =
      let (found, net') = sockets.get_host_by_name host (sockets.set_timeouts sock net) in
      elim found [
        | none ↦ (false, sockets.close sock net')
        | some address ↦
            (let (reached, after) = sockets.connect sock address (port % 65536) net' in
              (reached, sockets.close sock after))
      ]

  unfoldable pub check_service_health : String → ℕ → Net → Bool × Net
  unfolding check_socket
  check_service_health host port net =
      let (sock, net') = sockets.socket net in
      elim sock [ none ↦ (false, net') | some fd ↦ check_socket host port fd net' ]

  unfoldable pub perform_health_check : String → String → ℕ → HealthChecker Net → HealthChecker Net
  unfolding check_service_health
  perform_health_check name host port c =
      let (is_healthy, net') = check_service_health host port c.net in
      record {
        net = net';
        registry = record c.registry {
          load_balancer = update_health_status c.registry.load_balancer name host port is_healthy;
        };
      }

  -- The inner loop of a round, over the instances of one service.
  unfoldable pub check_instances :
      String → List ServiceRegistration → HealthChecker Net → HealthChecker Net
  unfolding perform_health_check
  check_instances name [] c = c
  check_instances name (r ∷ rs) c =
      check_instances name rs (perform_health_check name r.host r.port c)

  -- The outer loop of a round.
  unfoldable pub check_services :
      Dict (List ServiceRegistration) → HealthChecker Net → HealthChecker Net
  unfolding check_instances
  check_services [] c = c
  check_services ((name, rs) ∷ services) c = check_services services (check_instances name rs c)

  -- A round of the thread started by startHealthChecking.
  unfoldable pub check_round : HealthChecker Net → HealthChecker Net
  unfolding check_services get_all_registered_services
  check_round c = check_services (get_all_registered_services c.registry) c
