-- ===== src/GateServer.antt =====
-- Services/GateServer/main.cpp, up to the call of `ioc.run()`. make_address and atoi are parameters;
-- the text of the port is that of a natural number. The program's one balancer is in the states of
-- the two managers that hold it, between whose calls it is passed on. `ioc` is g_ioc, with whether
-- it is stopped.
use qt_web_server_chat.Base.{
  ℕ, ◌%◌, String, Bool, true, false, Option, none, some, List, [], ◌∷◌, if◌then◌else◌, Exec, pure,
  throw, try_catch, focus, ◌>>=◌, ◌>>◌,
}
use qt_web_server_chat.LoadBalancer.{LoadBalancer, add_service_instance}
use qt_web_server_chat.DatabaseManager.{Mysql, DatabaseManager, connect}
use qt_web_server_chat.RedisManager.{Hiredis, RedisManager}
use qt_web_server_chat.StatusClientManager.{StatusClientManager}
use qt_web_server_chat.WebSocketManager.{WebSocketManager, cleanup}
use qt_web_server_chat.Listener.{Acceptor, Listener, construct, run, stop}
pub mod Start
mod Tests

pub record GateServer (Srv Net Acc : Type 0) : Type 0 where
  pub database : DatabaseManager Srv
  pub redis : RedisManager Net
  pub clients : StatusClientManager
  pub websockets : WebSocketManager
  pub acc : Acc
  pub listener : Option (Listener Acc ℕ)
  pub ioc : Option Bool

unfoldable pub add_instances : LoadBalancer → LoadBalancer
add_instances lb =
    add_service_instance
      (add_service_instance
        (add_service_instance (add_service_instance lb "StatusServer" "localhost" 50051 1)
          "StatusServer" "localhost" 50052 2)
        "StatusServer" "localhost" 50053 1)
      "DatabaseService" "localhost" 3307 2

module _ {Srv Net Acc : Type 0} where
  abbrev pub at_database :
      {A : Type 0} → Exec (DatabaseManager Srv) A → Exec (GateServer Srv Net Acc) A
  at_database = focus (λ s. s.database) (λ d s. record s { database = d })

  abbrev pub at_redis : {A : Type 0} → Exec (RedisManager Net) A → Exec (GateServer Srv Net Acc) A
  at_redis = focus (λ s. s.redis) (λ r s. record s { redis = r })

  abbrev pub at_clients :
      {A : Type 0} → Exec StatusClientManager A → Exec (GateServer Srv Net Acc) A
  at_clients = focus (λ s. s.clients) (λ c s. record s { clients = c })

  -- The registration of the instances.
  unfoldable pub register : GateServer Srv Net Acc → GateServer Srv Net Acc
  register s = record s {
    database = record s.database { load_balancer = add_instances s.database.load_balancer };
  }

  -- statusManager.initialize, with the balancer as the database manager left it, and back.
  unfoldable pub initialize_clients : Exec (GateServer Srv Net Acc) (Unit {0})
  initialize_clients =
      (λ s.
        at_clients (qt_web_server_chat.StatusClientManager.initialize 4 "StatusServer")
          (record s { clients = record s.clients { load_balancer = s.database.load_balancer } }))
      >> (λ s.
          pure tt
            (record s { database = record s.database { load_balancer = s.clients.load_balancer } }))

module _ {Srv Net Acc : Type 0} (mysql : Mysql Srv) (hiredis : Hiredis Net)
    (acceptor : Acceptor Acc) where
  -- The listener, made and run.
  unfoldable pub start_listener : String → ℕ → Exec (GateServer Srv Net Acc) (Unit {0})
  start_listener address port s =
      pure tt (record s {
        ioc = some false;
        listener = some (run (construct acceptor address port s.acc));
      })

  -- After db.connect.
  unfoldable pub start_connected : String → ℕ → Exec (GateServer Srv Net Acc) Bool
  unfolding initialize_clients start_listener
  start_connected address port =
      at_redis (qt_web_server_chat.RedisManager.initialize hiredis "localhost" 6379 10)
      >> initialize_clients
      >> start_listener address port
      >> pure true

  -- From the registration of the instances on.
  unfoldable pub start : String → ℕ → Exec (GateServer Srv Net Acc) Bool
  unfolding register start_connected
  start address port s =
      (at_database (connect mysql) >>= λ connected.
      if connected then start_connected address port else pure false)
        (register s)

  -- The arguments without the program's name; `true` where ioc.run() is called.
  unfoldable pub main :
      (String → Option String) → (String → ℕ) → List String → Exec (GateServer Srv Net Acc) Bool
  unfolding start
  main make_address atoi (host ∷ port ∷ []) =
      try_catch
        (elim (make_address host) [
          | none ↦ throw
          | some address ↦ start address (atoi port % 65536)
        ])
        (pure false)
  main make_address atoi args = pure false

  unfoldable pub stop_listener : Option (Listener Acc ℕ) → Option (Listener Acc ℕ)
  stop_listener none = none
  stop_listener (some l) = some (stop acceptor l)

  unfoldable pub stop_io : Option Bool → Option Bool
  stop_io none = none
  stop_io (some stopped) = some true

  unfoldable pub signal_handler : Exec (GateServer Srv Net Acc) (Unit {0})
  unfolding stop_listener stop_io
  signal_handler s =
      (at_database (qt_web_server_chat.DatabaseManager.disconnect mysql)
          >> at_redis (qt_web_server_chat.RedisManager.disconnect hiredis))
        (record s {
          listener = stop_listener s.listener;
          ioc = stop_io s.ioc;
          websockets = cleanup s.websockets;
        })
