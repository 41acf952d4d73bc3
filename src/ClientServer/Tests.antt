-- ===== src/ClientServer/Tests.antt =====
-- A login of a user whom the server knows by the number 7.
use qt_web_server_chat.Base.{
  ℕ, String, Bool, true, false, ◌==◌, none, some, List, [], ◌∷◌, if◌then◌else◌, codes, from_codes,
}
use Prim.Native.String.{◌++◌}
use qt_web_server_chat.LoadBalancer
use qt_web_server_chat.ConnectionManager.{init}
use qt_web_server_chat.DatabaseManager.{long, text, row, Mysql, DatabaseManager}
use qt_web_server_chat.HttpSession.Request.{post, no_request, HttpSession}
use qt_web_server_chat.HttpSession.Handlers.{BoostJson, Readings}
use qt_web_server_chat.HttpSession.Token.{Text, drop}
use qt_web_server_chat.HttpSession.Login.{token_for}
use qt_web_server_chat.NetworkManager.{
  Json, WebSocket, SocketState, unconnected, connecting, NetworkManager, construct,
}

abbrev now : Readings
now = record { steady = 0; nanoseconds = 1700000000; salt = 123456; time = 1700000000 }

-- The client's objects are all the server's answer.
abbrev cjson : Json (Unit {0}) (Unit {0})
cjson = record {
  from_json = λ s. some tt;
  to_json = λ o. "{\"username\":\"ann\",\"password\":\"secret\"}";
  empty_object = tt;
  insert = λ k f o. tt;
  contains = λ o k. true;
  string_at = λ o k.
      if k == "type"
      then "login_success"
      else if k == "token"
      then from_codes (token_for 7 1700000000 123456)
      else "7";
  bool_at = λ o k. false;
  array_at = λ o k. tt;
  empty_array = tt;
}

-- The server's values are their names.
abbrev json : BoostJson String
json = record {
  parse = λ body. some body;
  at = λ v name. some name;
  as_string = λ v. some (if v == "username" then "ann" else "secret");
}

-- The state of the network, and the URL that the socket was opened with last.
abbrev Network : Type 0
Network = SocketState × String

abbrev with_query : String → List (String × String) → String
with_query server [] = server
with_query server ((name, value) ∷ query) = server ++ ("/?" ++ name ++ "=" ++ value)

abbrev web : WebSocket Network
web = record {
  state = λ n. n.0;
  error_string = λ n. "refused";
  url = λ server scheme query. with_query server query;
  abort = λ n. ([], (unconnected, n.1));
  close = λ n. ([], (unconnected, n.1));
  open_url = λ url n. ([], (connecting, url));
  send_text_message = λ m n. n;
}

-- What stands behind http://127.0.0.1:8080.
abbrev resource : String → Text
resource url = drop 21 (codes url)

abbrev opened : Network → String
opened n = n.1

abbrev mysql : Mysql (Unit {0})
mysql = record {
  init = λ n. (true, n);
  real_connect = λ host port n. (true, n);
  close = λ n. n;
  ping = λ n. (true, n);
  query = λ q n. (true, n);
  insert_id = λ n. 8;
  stmt_init = λ n. (true, n);
  stmt_prepare = λ q n. (true, n);
  stmt_bind_param = λ vs n. (true, n);
  stmt_bind_result = λ n. (true, n);
  stmt_execute = λ n. (true, n);
  stmt_fetch = λ n. (row (long 7 ∷ text "secret" ∷ []), n);
  stmt_fetch_all = λ n. ([], n);
  stmt_close = λ n. n;
}

abbrev db : DatabaseManager (Unit {0})
db = record {
  srv = tt;
  connection = true;
  connected = true;
  current_host = "localhost";
  current_port = 3306;
  load_balancer = LoadBalancer.init;
  locked = false;
}

abbrev server : HttpSession (Unit {0})
server = record {
  req = record no_request {
    method = post;
    target = codes "/login";
    fields = ("Content-Type", codes "application/json") ∷ [];
    body = "{\"username\":\"ann\",\"password\":\"secret\"}";
  };
  res = record {
    version = 11;
    result = 200;
    server = "";
    content_type = "";
    keep_alive = true;
    body = "";
  };
  user_id = "";
  session_id = "s1";
  client_ip = "127.0.0.1";
  db = db;
  connections = init;
  sessions = record { sessions = [] };
  limiter = [];
  reads = 1;
  written = [];
  upgraded = [];
  shut = false;
}

abbrev client : NetworkManager Network (Unit {0}) (Unit {0})
unfolding construct
client = construct (unconnected, "")
