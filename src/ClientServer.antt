-- ===== src/ClientServer.antt =====
-- A login from end to end: the client of Qtclient/backend/networkmanager.cpp and the session of
-- Services/GateServer/http_session.cpp.
mod Tests
use qt_web_server_chat.Base.{
  ℕ, ◌≡◌, sym, String, true, false, none, some, List, [], ◌∷◌, arith, pos, to_string, done, codes,
  from_codes, typed_text, quoted,
}
use Prim.Native.String.{◌++◌}
use mathlib.Core.List
use qt_web_server_chat.DatabaseManager.{Mysql, DatabaseManager}
use qt_web_server_chat.HttpSession.Token.{Text}
use qt_web_server_chat.HttpSession.Request.{HttpSession, ok}
use qt_web_server_chat.HttpSession.Handlers.{BoostJson, Readings, c_str}
use qt_web_server_chat.HttpSession.Lifecycle.{verify_websocket_handshake}
use qt_web_server_chat.HttpSession.Login.{matches}
use qt_web_server_chat.NetworkManager.{Json, text, WebSocket, NetworkManager, Post}
use qt_web_server_chat.NetworkManager.Replies.{Reply}
use qt_web_server_chat.NetworkManager.Entering.{Holds}

-- The last request.
abbrev pub last_post : List Post → Post
last_post [] = record { url = ""; content_type = ""; body = ""; username = "" }
last_post (p ∷ ps) = p

-- The reply that QNetworkAccessManager makes of a response to a request; `resource` gives the path
-- and the query of a URL.
abbrev pub reply_to : (String → Text) → Post → String → Reply
reply_to resource p content = record {
  path = from_codes (resource p.url);
  username = p.username;
  error = none;
  body = content;
  deleted = false;
}

-- What the two JSON libraries are relied on for in one login: the server parses the object that the
-- client has written, and the client the text of the answer with a token and an id. The name and
-- the password have no character 0.
pub record Understand {J A V : Type 0} (cjson : Json J A) (json : BoostJson V)
    (username password : String) (t : Text) (u : String) : Type 0 where
  pub request : V
  pub username_value : V
  pub password_value : V
  pub written :
      json.parse (
        cjson.to_json (
          cjson.insert "password"
            (text password)
            (cjson.insert "username" (text username) cjson.empty_object)))
      ≡ some request
  pub username_at : json.at request "username" ≡ some username_value
  pub password_at : json.at request "password" ≡ some password_value
  pub username_text : json.as_string username_value ≡ some username
  pub password_text : json.as_string password_value ≡ some password
  pub username_whole : c_str username ≡ username
  pub password_whole : c_str password ≡ password
  pub answer : J
  pub parsed :
      cjson.from_json
        (typed_text "login_success" (("token", quoted (from_codes t)) ∷ ("userId", quoted u) ∷ []))
      ≡ some answer
  pub typed : cjson.contains answer "type" ≡ true
  pub success : cjson.string_at answer "type" ≡ "login_success"
  pub token : cjson.string_at answer "token" ≡ from_codes t
  pub user_id : cjson.string_at answer "userId" ≡ u

-- What Qt is relied on for: the resource of a URL of the server, and of the URL with a token; and the
-- socket, which is opened with a URL, reports nothing at once.
pub record Reaches {Net : Type 0} (web : WebSocket Net) (resource : String → Text)
    (opened : Net → String) (server_url : String) (t : Text) : Type 0 where
  pub path : (p : String) → resource (server_url ++ p) ≡ codes p
  pub query :
      resource (web.url server_url "ws" (("token", from_codes t) ∷ []))
      ≡ List.◌++◌ (codes "/?token=") t
  pub opens : (url : String) (n : Net) → opened (web.open_url url n).1 ≡ url
  pub quiet : (url : String) (n : Net) → (web.open_url url n).0 ≡ []

module _ {Net J A Srv V : Type 0} (cjson : Json J A) (web : WebSocket Net)
    (resource : String → Text) (opened : Net → String) (mysql : Mysql Srv) (json : BoostJson V)
    (sha256 : String → String) (now : Readings) where
  -- What the client holds after the reply, and what the session makes of the request that the
  -- client opens its socket with.
  unfoldable pub IsServed : String → ℕ → NetworkManager Net J A → HttpSession Srv → Type 0
  unfolding Holds
  IsServed username id client t =
      (t.res.result ≡ ok)
      × (client.current_username ≡ username)
      × (client.current_user_id ≡ to_string (pos id))
      × (verify_websocket_handshake
            (record t { req = record t.req { target = resource (opened client.web_socket) } })
          ≡ done true (record t {
            req = record t.req { target = resource (opened client.web_socket) };
            user_id = client.current_user_id;
          }))
