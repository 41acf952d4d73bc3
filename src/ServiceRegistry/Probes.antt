-- ===== src/ServiceRegistry/Probes.antt =====
-- The sockets of Services/utils/health_checker.cpp.
use qt_web_server_chat.Base.{
  ℕ, suc, ◌-◌, ◌%◌, ◌≡◌, refl, String, Option, none, some, List, [], ◌∷◌, arith, Dict, inl, inr,
  Option-cases, ◌∙◌,
}
use qt_web_server_chat.ServiceRegistry.{ServiceRegistration, get_all_registered_services}
use qt_web_server_chat.ServiceRegistry.HealthChecker.{
  Sockets, HealthChecker, check_socket, check_service_health, perform_health_check, check_instances,
  check_services, check_round,
}

abbrev opened : Option ℕ → ℕ → ℕ
opened none n = n
opened (some fd) n = suc n

-- The documented effect of the calls on the number of open sockets.
pub record Counts {Net : Type 0} (sockets : Sockets Net) (open_sockets : Net → ℕ) : Type 0 where
  pub socket :
      (v : Net) → open_sockets (sockets.socket v).1 ≡ opened (sockets.socket v).0 (open_sockets v)
  pub set_timeouts : (fd : ℕ) (v : Net) → open_sockets (sockets.set_timeouts fd v) ≡ open_sockets v
  pub get_host_by_name :
      (host : String) (v : Net) → open_sockets (sockets.get_host_by_name host v).1 ≡ open_sockets v
  pub connect :
      (fd address port : ℕ) (v : Net)
      → open_sockets (sockets.connect fd address port v).1 ≡ open_sockets v
  pub close : (fd : ℕ) (v : Net) → open_sockets (sockets.close fd v) ≡ open_sockets v - 1

module _ {Net : Type 0} (sockets : Sockets Net) (open_sockets : Net → ℕ)
    (counts : Counts sockets open_sockets) where
  check_socket-closes :
      (host : String) (port fd : ℕ) (v : Net)
      → open_sockets (check_socket sockets host port fd v).1 ≡ open_sockets v - 1
  unfolding check_socket
  check_socket-closes host port fd v =
      let set = sockets.set_timeouts fd v in
      let asked = sockets.get_host_by_name host set in
      elim (Option-cases asked.0) [
        | inl e ↦ ground (
          arith,
          counts.set_timeouts fd v,
          counts.get_host_by_name host set,
          counts.close fd asked.1,
        )
        | inr (address, e) ↦
            let reached = sockets.connect fd address (port % 65536) asked.1 in
            ground (
              arith,
              counts.set_timeouts fd v,
              counts.get_host_by_name host set,
              counts.connect fd address (port % 65536) asked.1,
              counts.close fd reached.1,
            )
      ]

  check_service_health-closes :
      (host : String) (port : ℕ) (v : Net)
      → open_sockets (check_service_health sockets host port v).1 ≡ open_sockets v
  unfolding check_service_health
  check_service_health-closes host port v =
      let made = sockets.socket v in
      elim (Option-cases made.0) [
        | inl e ↦ ground (arith, counts.socket v)
        | inr (fd, e) ↦ ground (arith, counts.socket v, check_socket-closes host port fd made.1)
      ]

  check_instances-closes :
      (name : String) (rs : List ServiceRegistration) (c : HealthChecker Net)
      → open_sockets (check_instances sockets name rs c).net ≡ open_sockets c.net
  unfolding check_instances perform_health_check
  check_instances-closes name [] c = refl
  check_instances-closes name (r ∷ rs) c =
      check_instances-closes name rs _ ∙ check_service_health-closes r.host r.port c.net

  check_services-closes :
      (services : Dict (List ServiceRegistration)) (c : HealthChecker Net)
      → open_sockets (check_services sockets services c).net ≡ open_sockets c.net
  unfolding check_services
  check_services-closes [] c = refl
  check_services-closes ((name, rs) ∷ services) c =
      check_services-closes services _ ∙ check_instances-closes name rs c

  -- A round of health checks closes every socket that it opens, on every path. It is assumed that
  -- the sockets' functions change the number of open sockets as documented.
  pub check_round-closes :
      (c : HealthChecker Net) → open_sockets (check_round sockets c).net ≡ open_sockets c.net
  unfolding check_round
  check_round-closes c = check_services-closes (get_all_registered_services c.registry) c
