-- ===== src/GateServer/Tests.antt =====
-- The start of the gate server with a database that answers and a Redis that does not.
use qt_web_server_chat.Base.{
  ℕ, ◌≡◌, refl, String, Bool, true, false, Option, none, some, List, [], ◌∷◌, done, blocked,
}
use qt_web_server_chat.LoadBalancer.{init}
use qt_web_server_chat.DatabaseManager.{no_data, Mysql, DatabaseManager, connect}
use qt_web_server_chat.RedisManager.{Hiredis}
use qt_web_server_chat.RedisManager.Start.{all_connect}
use qt_web_server_chat.Listener.{Acceptor}
use qt_web_server_chat.GateServer.{GateServer, add_instances, register, main}
use qt_web_server_chat.GateServer.Start.{main_deadlocks}

abbrev mysql : Mysql ℕ
mysql = record {
  init = λ n. (true, n);
  real_connect = λ host port n. (true, n);
  close = λ n. n;
  ping = λ n. (true, n);
  query = λ q n. (true, n);
  insert_id = λ n. 7;
  stmt_init = λ n. (true, n);
  stmt_prepare = λ q n. (true, n);
  stmt_bind_param = λ vs n. (true, n);
  stmt_bind_result = λ n. (true, n);
  stmt_execute = λ n. (true, n);
  stmt_fetch = λ n. (no_data, n);
  stmt_fetch_all = λ n. (no_data ∷ [], n);
  stmt_close = λ n. n;
}

abbrev hiredis : Hiredis ℕ
hiredis = record {
  connect_with_timeout = λ host port n. (none, n);
  free = λ ctx n. n;
  command = λ ctx args n. (none, n);
}

abbrev acceptor : Acceptor ℕ
acceptor = record {
  open_acceptor = λ address port n. (none, n);
  set_reuse_address = λ n. (none, n);
  bind = λ address port n. (none, n);
  listen = λ n. (none, n);
  cancel = λ n. n;
  close = λ n. n;
}

abbrev fresh : GateServer ℕ ℕ ℕ
fresh = record {
  database = record {
    srv = 0;
    connection = false;
    connected = false;
    current_host = "";
    current_port = 0;
    load_balancer = init;
    locked = false;
  };
  redis = record {
    net = 0;
    connection_pool = [];
    host = "localhost";
    port = 6379;
    pool_size = 10;
    initialized = false;
    locked = false;
    pool_locked = false;
  };
  clients = record {
    initialized = false;
    server_address = "";
    service_name = "";
    client_pool = [];
    load_balancer = init;
    locked = false;
  };
  websockets = record { sessions = [] };
  acc = 0;
  listener = none;
  ioc = none;
}

abbrev connected : DatabaseManager ℕ
unfolding register add_instances
connected = record (register fresh).database {
  connection = true;
  connected = true;
  current_host = "localhost";
  current_port = 3307;
}

connects : connect mysql (register fresh).database ≡ done true connected
unfolding register add_instances connect qt_web_server_chat.LoadBalancer.get_next_healthy_instance
    qt_web_server_chat.Base.lookup qt_web_server_chat.LoadBalancer.add_service_instance
    qt_web_server_chat.Base.insert qt_web_server_chat.Base.lookup_or
    qt_web_server_chat.LoadBalancer.select qt_web_server_chat.LoadBalancer.round_robin
connects = refl

main_deadlocks_example :
    main mysql hiredis acceptor (λ host. some host) (λ port. 8080) ("0.0.0.0" ∷ "8080" ∷ []) fresh
    ≡ blocked
unfolding all_connect
main_deadlocks_example =
    main_deadlocks mysql hiredis acceptor (λ host. some host) (λ port. 8080) "0.0.0.0" "8080"
      "0.0.0.0" fresh connected refl connects refl refl refl refl
