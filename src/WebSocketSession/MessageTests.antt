-- ===== src/WebSocketSession/MessageTests.antt =====
-- A conversation of user 7 with a server that stores every message, and user 8 in session 2.
use qt_web_server_chat.Base.{
  ℕ, ◌≡◌, refl, String, true, false, none, some, [], ◌∷◌, ◌==◌, if◌then◌else◌, pos, done, blocked,
  arith,
}
use qt_web_server_chat.LoadBalancer
use qt_web_server_chat.DatabaseManager.{no_data, Mysql, DatabaseManager}
use qt_web_server_chat.DatabaseManager.Messages.{store_message}
use qt_web_server_chat.WebSocketSession.{WebSocketSession}
use qt_web_server_chat.WebSocketSession.Messages.{Json, Conversation, handle_text_message}
use qt_web_server_chat.WebSocketSession.Silence.{handle_text_message_deadlocks}
use qt_web_server_chat.WebSocketSession.Delivery.{envelope, IsFree, handle_text_message-delivery}

abbrev mysql : Mysql (Unit {0})
mysql = record {
  init = λ n. (true, n);
  real_connect = λ host port n. (true, n);
  close = λ n. n;
  ping = λ n. (true, n);
  query = λ q n. (true, n);
  insert_id = λ n. 8;
  stmt_init = λ n. (true, n);
  stmt_prepare = λ q n. (true, n);
  stmt_bind_param = λ vs n. (true, n);
  stmt_bind_result = λ n. (true, n);
  stmt_execute = λ n. (true, n);
  stmt_fetch = λ n. (no_data, n);
  stmt_fetch_all = λ n. ([], n);
  stmt_close = λ n. n;
}

abbrev db : DatabaseManager (Unit {0})
db = record {
  srv = tt;
  connection = true;
  connected = true;
  current_host = "localhost";
  current_port = 3306;
  load_balancer = LoadBalancer.init;
  locked = false;
}

-- The texts are their own values: "hi" is an object whose fields are the names below.
abbrev json : Json String
json = record {
  parse = λ s. if s == "hi" then some s else none;
  is_object = λ v. true;
  contains = λ v name. true;
  at = λ v name. some name;
  as_string = λ name.
      some
        (if name == "type" then "text_message" else if name == "receiver_id" then "8" else "hello");
  string = λ s. s;
  array = λ vs. "[]";
  object = λ fs. "{}";
  serialize = λ v. v;
}

abbrev own : WebSocketSession (Unit {0})
own = record {
  user_id = "7";
  session_id = "s1";
  message_queue = [];
  is_writing = false;
  written = [];
  last_heartbeat = 0;
  status_client = none;
  client_acquired = false;
  locked = false;
  redis = record {
    net = tt;
    connection_pool = [];
    host = "localhost";
    port = 6379;
    pool_size = 5;
    initialized = true;
    locked = false;
    pool_locked = false;
  };
  sessions = record { sessions = ("7", 1) ∷ ("8", 2) ∷ [] };
  clients = record {
    initialized = true;
    server_address = "localhost:50051";
    service_name = "StatusServer";
    client_pool = [];
    load_balancer = LoadBalancer.init;
    locked = false;
  };
}

-- The session of user 8, which is writing.
abbrev peer : WebSocketSession (Unit {0})
peer = record own { user_id = "8"; session_id = "s2"; is_writing = true }

abbrev conversation : Conversation (Unit {0}) (Unit {0})
conversation = record {
  session = own;
  others = (2, peer) ∷ [];
  db = db;
  buffer = "";
  reads = 1;
  timers = 1;
  posted = 0;
}

handle_text_message_deadlocks_example :
    handle_text_message mysql json 0 "hello?" conversation ≡ blocked
handle_text_message_deadlocks_example =
    handle_text_message_deadlocks mysql json 0 "hello?" conversation refl refl refl

stored : store_message mysql 7 8 "hello" db ≡ done true db
unfolding store_message
stored = refl

conversation-IsFree : IsFree conversation
conversation-IsFree = record { own = refl; other = λ n t e. ground arith }

handle_text_message-delivery_example :
    handle_text_message mysql json 0 "hi" conversation
    ≡ done tt (record conversation {
      others = (2, record peer { message_queue = envelope "7" "hello" 0 ∷ [] }) ∷ [];
    })
unfolding qt_web_server_chat.WebSocketSession.Messages.string_field qt_web_server_chat.Base.stoi
    qt_web_server_chat.WebSocketManager.get_session qt_web_server_chat.Base.lookup
handle_text_message-delivery_example =
    handle_text_message-delivery mysql json 0 "hi" "hi" "8" "hello" (pos 8) (pos 7) true db
      conversation conversation-IsFree refl refl refl refl refl refl refl refl stored
