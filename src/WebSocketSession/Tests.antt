-- ===== src/WebSocketSession/Tests.antt =====
-- A session of user 7, with a Redis server that answers nothing.
use qt_web_server_chat.Base.{
  ◌≡◌, refl, String, Bool, true, false, ◌==◌, none, some, [], ◌∷◌, arith, if◌then◌else◌, ℤ, Returns,
}
use qt_web_server_chat.LoadBalancer.{init}
use qt_web_server_chat.RedisManager.{Hiredis}
use qt_web_server_chat.RedisManager.Pool.{IsReady}
use qt_web_server_chat.StatusClientManager.{Client}
use qt_web_server_chat.StatusService.{UserStatus}
use qt_web_server_chat.WebSocketManager.{get_session}
use qt_web_server_chat.WebSocketSession.{WebSocketSession, fail}
use qt_web_server_chat.WebSocketSession.End.{fail_lem}

abbrev server : Hiredis (Unit {0})
server = record {
  connect_with_timeout = λ host port n. (none, n);
  free = λ ctx n. n;
  command = λ ctx args n. (none, n);
}

abbrev rpc : Client → ℤ → UserStatus → String → Unit {0} → Bool × Unit {0}
rpc c user_id st session_id n = (true, n)

abbrev session : WebSocketSession (Unit {0})
session = record {
  user_id = "7";
  session_id = "s1";
  message_queue = [];
  is_writing = false;
  written = [];
  last_heartbeat = 0;
  status_client = some "localhost:50051";
  client_acquired = true;
  locked = false;
  redis = record {
    net = tt;
    connection_pool = [];
    host = "localhost";
    port = 6379;
    pool_size = 5;
    initialized = true;
    locked = false;
    pool_locked = false;
  };
  sessions = record { sessions = ("7", 1) ∷ ("8", 2) ∷ [] };
  clients = record {
    initialized = true;
    server_address = "localhost:50051";
    service_name = "StatusServer";
    client_pool = [];
    load_balancer = init;
    locked = false;
  };
}

session-IsReady : IsReady session.redis
session-IsReady = record { free = refl; pool_free = refl; within = omega arith }

fail_lem_example :
    Returns
      (λ t.
        ((other : String)
          → get_session t.sessions other
            ≡ (if "7" == other then none else get_session session.sessions other))
        × (t.clients.client_pool ≡ "localhost:50051" ∷ [])
        × (t.clients.locked ≡ false)
        × (t.status_client ≡ none))
      (fail server rpc 0 session)
fail_lem_example =
    fail_lem server rpc 0 "localhost:50051" session session-IsReady refl refl refl refl refl
