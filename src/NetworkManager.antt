-- ===== src/NetworkManager.antt =====
-- The client's Qtclient/backend/networkmanager.{h,cpp}: the state, the signals and the requests.
use Prim.Native.String.{◌++◌}
use qt_web_server_chat.Base.{
  ℕ, String, Bool, true, false, not, ◌&&◌, ◌||◌, Option, none, some, List, [], ◌∷◌, ◌==◌,
  if◌then◌else◌, ℤ,
}
pub mod Replies
mod Tests
mod Signals
mod Events
mod Stable
mod Proxy
mod Logins
mod Verdicts
mod Leaving
pub mod Entering

-- A value that is put under a key of a QJsonObject.
pub data Field (J : Type 0) : Type 0 where
  text : String → Field J
  number : ℤ → Field J
  object : J → Field J

-- QJsonDocument, QJsonObject (J) and QJsonArray (A). `from_json` gives the object of a text that
-- parses without an error to an object.
pub record Json (J A : Type 0) : Type 0 where
  pub from_json : String → Option J
  pub to_json : J → String
  pub empty_object : J
  pub insert : String → Field J → J → J
  pub contains : J → String → Bool
  pub string_at : J → String → String
  pub bool_at : J → String → Bool
  pub array_at : J → String → A
  pub empty_array : A

pub data SocketState : Type 0 where
  unconnected host_lookup connecting connected bound listening closing : SocketState

abbrev pub is_unconnected : SocketState → Bool
is_unconnected unconnected = true
is_unconnected _ = false

abbrev pub is_connected : SocketState → Bool
is_connected connected = true
is_connected _ = false

pub data ProxyType : Type 0 where
  default_proxy no_proxy : ProxyType

-- What the socket may report while one of its methods runs.
pub data Notice : Type 0 where
  disconnected error : Notice

-- QWebSocket, with `Net` the state of the network. `url` is QUrl with setScheme and setQuery, `open_url` is open.
pub record WebSocket (Net : Type 0) : Type 0 where
  pub state : Net → SocketState
  pub error_string : Net → String
  pub url : String → String → List (String × String) → String
  pub abort : Net → List Notice × Net
  pub close : Net → List Notice × Net
  pub open_url : String → Net → List Notice × Net
  pub send_text_message : String → Net → Net

pub data Signal (J A : Type 0) : Type 0 where
  connection_state_changed : Bool → Signal J A
  login_response_received : Bool → String → Signal J A
  register_response_received : Bool → String → Signal J A
  message_received : J → Signal J A
  add_friend_response_received : Bool → String → Signal J A
  friends_list_received : A → Signal J A
  chat_history_received : A → Signal J A
  search_user_response_received : A → Signal J A
  error_occurred : String → Signal J A
  use_proxy_changed : Bool → Signal J A
  current_username_changed : String → Signal J A
  current_user_id_changed : String → Signal J A

-- A request that QNetworkAccessManager::post was given, with the property "username" of its reply.
pub record Post : Type 0 where
  pub url : String
  pub content_type : String
  pub body : String
  pub username : String

-- The manager; what was emitted and posted stands newest first. A proxy that was never set is `none`.
pub record NetworkManager (Net J A : Type 0) : Type 0 where
  pub use_proxy : Bool
  pub http_proxy : Option ProxyType
  pub socket_proxy : Option ProxyType
  pub web_socket : Net
  pub token : String
  pub server_url : String
  pub current_username : String
  pub current_user_id : String
  pub posted : List Post
  pub signals : List (Signal J A)

module _ {Net J A : Type 0} where
  abbrev pub emit : Signal J A → NetworkManager Net J A → NetworkManager Net J A
  emit m s = record s { signals = m ∷ s.signals }

  unfoldable pub set_use_proxy : Bool → NetworkManager Net J A → NetworkManager Net J A
  set_use_proxy use_proxy s =
      if (if s.use_proxy then use_proxy else not use_proxy)
      then s
      else (let proxy = if use_proxy then default_proxy else no_proxy in
          emit (use_proxy_changed use_proxy) (record s {
            use_proxy = use_proxy;
            http_proxy = some proxy;
            socket_proxy = some proxy;
          }))

  unfoldable pub construct : Net → NetworkManager Net J A
  unfolding set_use_proxy
  construct net = set_use_proxy false record {
    use_proxy = false;
    http_proxy = none;
    socket_proxy = none;
    web_socket = net;
    token = "";
    server_url = "http://127.0.0.1:8080";
    current_username = "";
    current_user_id = "";
    posted = [];
    signals = [];
  }

  unfoldable pub clear_username : NetworkManager Net J A → NetworkManager Net J A
  clear_username s =
      if s.current_username == ""
      then s
      else emit (current_username_changed "") (record s { current_username = "" })

  unfoldable pub clear_user_id : NetworkManager Net J A → NetworkManager Net J A
  clear_user_id s =
      if s.current_user_id == ""
      then s
      else emit (current_user_id_changed "") (record s { current_user_id = "" })

  unfoldable pub on_connected : NetworkManager Net J A → NetworkManager Net J A
  on_connected s =
      emit (login_response_received true "登录成功") (emit (connection_state_changed true) s)

  unfoldable pub on_disconnected : NetworkManager Net J A → NetworkManager Net J A
  unfolding clear_username clear_user_id
  on_disconnected s = clear_user_id (clear_username (emit (connection_state_changed false) s))

module _ {Net J A : Type 0} (web : WebSocket Net) where
  unfoldable pub on_error : NetworkManager Net J A → NetworkManager Net J A
  on_error s = emit (error_occurred (web.error_string s.web_socket)) s

  -- The slots that the constructor connects to the socket's signals.
  unfoldable pub notify : Notice → NetworkManager Net J A → NetworkManager Net J A
  unfolding on_disconnected on_error
  notify disconnected s = on_disconnected s
  notify error s = on_error s

  unfoldable pub notify_all : List Notice → NetworkManager Net J A → NetworkManager Net J A
  unfolding notify
  notify_all [] s = s
  notify_all (n ∷ ns) s = notify_all ns (notify n s)

  -- A method of the socket runs, and the slots run for what it reports.
  unfoldable pub on_socket :
      (Net → List Notice × Net) → NetworkManager Net J A → NetworkManager Net J A
  unfolding notify_all
  on_socket call s = let r = call s.web_socket in notify_all r.0 (record s { web_socket = r.1 })

  unfoldable pub disconnect_from_server : NetworkManager Net J A → NetworkManager Net J A
  unfolding on_socket clear_username clear_user_id
  disconnect_from_server s = clear_user_id (
      clear_username (if is_unconnected (web.state s.web_socket) then s else on_socket web.abort s))

  unfoldable pub connect_to_server : String → NetworkManager Net J A → NetworkManager Net J A
  unfolding disconnect_from_server
  connect_to_server url s = record (disconnect_from_server s) { server_url = url }

  unfoldable pub establish_web_socket_connection : NetworkManager Net J A → NetworkManager Net J A
  unfolding on_socket
  establish_web_socket_connection s =
      let url = web.url s.server_url "ws" (("token", s.token) ∷ []) in
      on_socket (web.open_url url)
        (if is_unconnected (web.state s.web_socket) then s else on_socket web.close s)

module _ {Net J A : Type 0} (json : Json J A) where
  abbrev post : String → J → String → NetworkManager Net J A → NetworkManager Net J A
  post path body username s = record s {
    posted =
        record {
          url = s.server_url ++ path;
          content_type = "application/json";
          body = json.to_json body;
          username = username;
        }
        ∷ s.posted;
  }

  unfoldable pub send_login_request :
      String → String → NetworkManager Net J A → NetworkManager Net J A
  send_login_request username password =
      post "/login"
        (json.insert "password" (text password)
          (json.insert "username" (text username) json.empty_object))
        username

  unfoldable pub send_register_request :
      String → String → String → NetworkManager Net J A → NetworkManager Net J A
  send_register_request username password email =
      post "/register"
        (json.insert "email" (text email) (
          json.insert "password" (text password)
            (json.insert "username" (text username) json.empty_object)))
        username
