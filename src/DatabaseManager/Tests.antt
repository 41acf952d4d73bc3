-- ===== src/DatabaseManager/Tests.antt =====
-- The database manager with a small library: its state is the number of open statements.
use qt_web_server_chat.Base.{
  ℕ, suc, ◌+◌, ◌-◌, ◌≡◌, refl, String, Bool, true, false, Option, none, some, List, [], ◌∷◌, ◌++◌,
  arith, if◌then◌else◌, done, Returns, Answers,
}
use qt_web_server_chat.LoadBalancer.{
  LoadBalancer, init, service_instance, ServiceInstance, add_service_instance, update_health_status,
  get_next_healthy_instance,
}
use qt_web_server_chat.DatabaseManager.{
  no_data, Mysql, DatabaseManager, service_name, connect_impl, available,
}
use qt_web_server_chat.DatabaseManager.Statements.{Counts}
use qt_web_server_chat.DatabaseManager.Queries.{creates, run_query, run_query-Open}
use qt_web_server_chat.DatabaseManager.Connection.{
  Handles, Settled, available_stale, connect_impl_failover,
}

abbrev mysql : Mysql ℕ
mysql = record {
  init = λ n. (true, n);
  real_connect = λ host port n. (false, n);
  close = λ n. n;
  ping = λ n. (false, n);
  query = λ q n. (true, n);
  insert_id = λ n. 7;
  stmt_init = λ n. (true, suc n);
  stmt_prepare = λ q n. (true, n);
  stmt_bind_param = λ vs n. (true, n);
  stmt_bind_result = λ n. (true, n);
  stmt_execute = λ n. (true, n);
  stmt_fetch = λ n. (no_data, n);
  stmt_fetch_all = λ n. (no_data ∷ [], n);
  stmt_close = λ n. n - 1;
}

mysql-Counts : Counts mysql (λ n. n)
mysql-Counts = record {
  init = λ v. refl;
  real_connect = λ host port v. refl;
  close = λ v. refl;
  ping = λ v. refl;
  query = λ q v. refl;
  stmt_init = λ v. refl;
  stmt_prepare = λ q v. refl;
  stmt_bind_param = λ vs v. refl;
  stmt_bind_result = λ v. refl;
  stmt_execute = λ v. refl;
  stmt_fetch = λ v. refl;
  stmt_fetch_all = λ v. refl;
  stmt_close = λ v. refl;
}

abbrev replica : ServiceInstance
replica = service_instance "DatabaseService" "localhost" 3307

abbrev balancer : Bool → LoadBalancer
balancer up = record {
  service_instances = ("DatabaseService", record replica { is_healthy = up } ∷ []) ∷ [];
  current_indices = [];
}

-- A manager that is not connected, with one instance.
abbrev manager : Bool → DatabaseManager ℕ
manager up = record {
  srv = 0;
  connection = false;
  connected = false;
  current_host = "";
  current_port = 0;
  load_balancer = balancer up;
  locked = false;
}

abbrev stale : DatabaseManager ℕ
stale = record (manager true) { connection = true; connected = true }

run_query-Open_example :
    Returns
      (λ t. (t.locked ≡ false) × (t.srv ≡ 0))
      (run_query mysql (λ p. p) (creates "ann" "secret" "ann@example.org") stale)
run_query-Open_example =
    run_query-Open mysql (λ n. n) mysql-Counts (λ p. p) (creates "ann" "secret" "ann@example.org") 0
      stale refl refl

available_stale_example : available mysql stale ≡ done true stale
available_stale_example = available_stale mysql stale refl

chosen :
    (get_next_healthy_instance (λ lo hi. lo) (balancer true) service_name "round_robin").0
    ≡ some replica
unfolding get_next_healthy_instance qt_web_server_chat.Base.lookup
    qt_web_server_chat.LoadBalancer.select qt_web_server_chat.LoadBalancer.round_robin
    qt_web_server_chat.Base.lookup_or
chosen = refl

-- Every handle is made, no server is reached; the state counts the handles.
abbrev unreached : Mysql ℕ
unreached = record mysql { init = λ n. (true, n + 1); close = λ n. n - 1 }

unreached-Handles : Handles unreached (λ n. n)
unreached-Handles = record {
  init = λ v. refl;
  real_connect = λ host port v. refl;
  close = λ v. refl;
}

connect_impl_failover_example :
    Answers
      (λ a t.
        (a ≡ false) × Settled unreached (manager true) replica a t × (t.srv ≡ (if a then 1 else 0)))
      (connect_impl unreached (manager true))
connect_impl_failover_example =
    connect_impl_failover unreached (λ n. n) unreached-Handles (manager true) replica refl chosen
