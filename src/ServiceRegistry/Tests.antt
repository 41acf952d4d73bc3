-- ===== src/ServiceRegistry/Tests.antt =====
-- The registry and the health checker with no network.
use qt_web_server_chat.Base.{ℕ, suc, ◌-◌, ◌≡◌, refl, false, some, List, [], ◌∷◌, lookup_or}
use qt_web_server_chat.LoadBalancer
use qt_web_server_chat.ServiceRegistry.{ServiceRegistry, register_service}
use qt_web_server_chat.ServiceRegistry.HealthChecker.{Sockets, HealthChecker, check_round}
use qt_web_server_chat.ServiceRegistry.Agreement.{registered_addresses, instance_addresses}
use qt_web_server_chat.ServiceRegistry.Replay.{
  Step, registers, unregisters, checks, run, replay, new_checker, run-replay,
}
use qt_web_server_chat.ServiceRegistry.Probes.{Counts, check_round-closes}

-- Every host has the address 0, and nothing answers; the state counts the open sockets.
abbrev sockets : Sockets ℕ
sockets = record {
  socket = λ n. (some n, suc n);
  set_timeouts = λ fd n. n;
  get_host_by_name = λ host n. (some 0, n);
  connect = λ fd address port n. (false, n);
  close = λ fd n. n - 1;
}

sockets-Counts : Counts sockets (λ n. n)
sockets-Counts = record {
  socket = λ v. refl;
  set_timeouts = λ fd v. refl;
  get_host_by_name = λ host v. refl;
  connect = λ fd address port v. refl;
  close = λ fd v. refl;
}

abbrev empty : ServiceRegistry
empty = record { registered_services = []; load_balancer = LoadBalancer.init }

abbrev checker : HealthChecker ℕ
checker = record { net = 0; registry = register_service empty "chat" "a" 80 1 "v1" }

check_round-closes_example : (check_round sockets checker).net ≡ checker.net
check_round-closes_example = check_round-closes sockets (λ n. n) sockets-Counts checker

abbrev history : List Step
history =
    registers "chat" "a" 80 1 "v1"
    ∷ checks
    ∷ registers "chat" "b" 80 1 "v1"
    ∷ unregisters "chat" "a" 80
    ∷ []

run-replay_example :
    (registered_addresses
        (lookup_or [] "chat" (run sockets history (new_checker 0)).registry.registered_services)
      ≡ ("b", 80) ∷ [])
    × (instance_addresses (
          lookup_or [] "chat"
            (run sockets history (new_checker 0)).registry.load_balancer.service_instances)
        ≡ ("b", 80) ∷ [])
unfolding replay
run-replay_example = run-replay sockets history 0 "chat"
