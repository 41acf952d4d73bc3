-- ===== src/NetworkManager/Replies.antt =====
-- The replies and messages that the client of Qtclient/backend/networkmanager.cpp gets, and what it
-- sends over the socket.
use Prim.Native.String.{◌++◌}
use qt_web_server_chat.Base.{
  String, Bool, true, false, ◌&&◌, Option, none, some, ◌==◌, if◌then◌else◌, ℤ,
}
use qt_web_server_chat.NetworkManager.{
  Json, WebSocket, NetworkManager, Signal, login_response_received, register_response_received,
  message_received, add_friend_response_received, friends_list_received, chat_history_received,
  search_user_response_received, current_username_changed, current_user_id_changed, emit,
  establish_web_socket_connection, is_connected, text, number, object,
}

-- A QNetworkReply: the path of its request's URL, the property "username", the text of its error,
-- what is still to be read of its body, and whether it was told to delete itself.
pub record Reply : Type 0 where
  pub path : String
  pub username : String
  pub error : Option String
  pub body : String
  pub deleted : Bool

unfoldable pub read_all : Reply → Reply
read_all r = record r { body = "" }

unfoldable pub delete_later : Reply → Reply
delete_later r = record r { deleted = true }

-- obj.contains(key) ? obj[key].toString() : otherwise
abbrev message_or : {J A : Type 0} → Json J A → String → J → String
message_or json otherwise obj =
    if json.contains obj "message" then json.string_at obj "message" else otherwise

abbrev pub format_error : String
format_error = "服务器响应格式错误"

abbrev network_error : String → String
network_error e = "网络错误: " ++ e

module _ {J A : Type 0} (json : Json J A) where
  unfoldable pub register_verdict : Option J → Signal J A
  register_verdict none = register_response_received false format_error
  register_verdict (some obj) =
      if json.contains obj "type" && (json.string_at obj "type" == "register_success")
      then register_response_received true (message_or json "注册成功" obj)
      else register_response_received false (message_or json "注册失败" obj)

module _ {Net J A : Type 0} (json : Json J A) where
  unfoldable pub on_register_request_finished :
      Reply → NetworkManager Net J A → Reply × NetworkManager Net J A
  unfolding read_all delete_later register_verdict
  on_register_request_finished r s = elim r.error [
    | some e ↦ (delete_later r, emit (register_response_received false (network_error e)) s)
    | none ↦ (delete_later (read_all r), emit (register_verdict json (json.from_json r.body)) s)
  ]

module _ {Net J A : Type 0} where
  unfoldable pub set_user : String → String → NetworkManager Net J A → NetworkManager Net J A
  set_user username user_id s =
      let named =
        if s.current_username == username
        then s
        else emit (current_username_changed username) (record s { current_username = username }) in
      if named.current_user_id == user_id
      then named
      else emit (current_user_id_changed user_id) (record named { current_user_id = user_id })

module _ {Net J A : Type 0} (json : Json J A) (web : WebSocket Net) where
  unfoldable pub log_in : String → J → NetworkManager Net J A → NetworkManager Net J A
  unfolding set_user establish_web_socket_connection
  log_in username obj s = establish_web_socket_connection web (
      set_user username (json.string_at obj "userId")
        (record s { token = json.string_at obj "token" }))

  unfoldable pub login_failed : Reply → J → NetworkManager Net J A → Reply × NetworkManager Net J A
  unfolding delete_later
  login_failed r obj s =
      (delete_later r, emit (login_response_received false (message_or json "登录失败" obj)) s)

  -- The reply that is passed on has been read to its end.
  unfoldable pub pass_on : Reply → NetworkManager Net J A → Reply × NetworkManager Net J A
  unfolding on_register_request_finished delete_later
  pass_on r s =
      let passed_on = on_register_request_finished json r s in
      (delete_later passed_on.0, passed_on.1)

  unfoldable pub on_login_object :
      Reply → J → NetworkManager Net J A → Reply × NetworkManager Net J A
  unfolding log_in login_failed pass_on delete_later
  on_login_object r obj s =
      let type = json.string_at obj "type" in
      if json.contains obj "type"
      then (if type == "login_success"
          then (delete_later r, log_in r.username obj s)
          else if type == "register_success"
          then pass_on r s
          else if type == "register_failed"
          then pass_on r s
          else login_failed r obj s)
      else login_failed r obj s

  unfoldable pub on_login_request_finished :
      Reply → NetworkManager Net J A → Reply × NetworkManager Net J A
  unfolding on_login_object read_all delete_later
  on_login_request_finished r s = elim r.error [
    | some e ↦ (delete_later r, emit (login_response_received false (network_error e)) s)
    | none ↦ elim (json.from_json r.body) [
      | some obj ↦ on_login_object (read_all r) obj s
      | none ↦ (delete_later (read_all r), emit (login_response_received false format_error) s)
    ]
  ]

  unfoldable pub dispatch_reply : Reply → NetworkManager Net J A → Reply × NetworkManager Net J A
  unfolding on_login_request_finished on_register_request_finished delete_later
  dispatch_reply r s = elim r.error [
    | some e ↦ (
      delete_later r,
      (if r.path == "/login"
          then emit (login_response_received false (network_error e)) s
          else if r.path == "/register"
          then emit (register_response_received false (network_error e)) s
          else s),
    )
    | none ↦
        if r.path == "/login"
        then on_login_request_finished r s
        else if r.path == "/register"
        then on_register_request_finished json r s
        else (delete_later r, s)
  ]

  -- `none` is a null pointer, for which the two handlers behind this one test too.
  unfoldable pub on_network_reply_finished :
      Option Reply → NetworkManager Net J A → Option Reply × NetworkManager Net J A
  unfolding dispatch_reply
  on_network_reply_finished none s = (none, s)
  on_network_reply_finished (some r) s = let t = dispatch_reply r s in (some t.0, t.1)

module _ {J A : Type 0} (json : Json J A) where
  unfoldable pub received_signal : J → Signal J A
  received_signal obj =
      let type = json.string_at obj "type" in
      if json.contains obj "type"
      then (if type == "add_friend_response"
          then add_friend_response_received (json.bool_at obj "success")
              (json.string_at obj "message")
          else if type == "friends_list_response"
          then friends_list_received (json.array_at obj "friends")
          else if type == "chat_history_response"
          then chat_history_received (json.array_at obj "messages")
          else if type == "search_user_response"
          then search_user_response_received (json.array_at obj "results")
          else message_received obj)
      else message_received obj

module _ {Net J A : Type 0} (json : Json J A) where
  unfoldable pub on_text_message_received : String → NetworkManager Net J A → NetworkManager Net J A
  unfolding received_signal
  on_text_message_received message s = elim (json.from_json message) [
    | none ↦ s
    | some obj ↦ emit (received_signal json obj) s
  ]

module _ {Net J A : Type 0} (json : Json J A) (web : WebSocket Net) where
  -- The text goes out if the socket is connected; if not, the second manager is the answer.
  unfoldable pub send_or :
      J
      → (NetworkManager Net J A → NetworkManager Net J A)
      → NetworkManager Net J A
      → NetworkManager Net J A
  send_or obj otherwise s =
      if is_connected (web.state s.web_socket)
      then record s { web_socket = web.send_text_message (json.to_json obj) s.web_socket }
      else otherwise s

  unfoldable pub send_message : J → NetworkManager Net J A → NetworkManager Net J A
  unfolding send_or
  send_message message = send_or message (λ s. s)

  unfoldable pub send_add_friend_request : ℤ → ℤ → NetworkManager Net J A → NetworkManager Net J A
  unfolding send_or
  send_add_friend_request user_id friend_id =
      send_or
        (json.insert "friend_id" (number friend_id) (
          json.insert "user_id" (number user_id)
            (json.insert "type" (text "add_friend_request") json.empty_object)))
        (emit (add_friend_response_received false "网络未连接"))

  unfoldable pub get_friends_list : ℤ → NetworkManager Net J A → NetworkManager Net J A
  unfolding send_or
  get_friends_list user_id =
      send_or
        (json.insert "user_id" (number user_id)
          (json.insert "type" (text "get_friends_list") json.empty_object))
        (λ s. s)

  unfoldable pub get_chat_history : ℤ → ℤ → NetworkManager Net J A → NetworkManager Net J A
  unfolding send_or
  get_chat_history user_id friend_id =
      send_or
        (json.insert "friend_id" (number friend_id) (
          json.insert "user_id" (number user_id)
            (json.insert "type" (text "get_chat_history") json.empty_object)))
        (λ s. s)

  unfoldable pub send_grpc_request : String → J → NetworkManager Net J A → NetworkManager Net J A
  unfolding send_or
  send_grpc_request method request_data =
      send_or
        (json.insert "data" (object request_data) (
          json.insert "method" (text method)
            (json.insert "type" (text "grpc_request") json.empty_object)))
        (λ s. s)

  unfoldable pub search_user : String → NetworkManager Net J A → NetworkManager Net J A
  unfolding send_or
  search_user query s =
      if query == ""
      then s
      else send_or
          (json.insert "query" (text query)
            (json.insert "type" (text "search_user") json.empty_object))
          (emit (search_user_response_received json.empty_array)) s
