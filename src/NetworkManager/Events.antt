-- ===== src/NetworkManager/Events.antt =====
-- The calls and the slots of Qtclient/backend/networkmanager.h, in any order: a history of the client.
use qt_web_server_chat.Base.{String, Bool, Option, List, [], ◌∷◌, ℤ}
use qt_web_server_chat.NetworkManager.{
  Json, WebSocket, NetworkManager, Notice, set_use_proxy, connect_to_server, disconnect_from_server,
  send_login_request, send_register_request, on_connected, notify,
}
use qt_web_server_chat.NetworkManager.Replies.{
  Reply, on_network_reply_finished, on_text_message_received, send_message, send_add_friend_request,
  get_friends_list, get_chat_history, search_user,
}

-- The methods that QML may call and the signals that Qt may deliver, in the header's order; the network's state
-- may also change by itself.
pub data Event (Net J : Type 0) : Type 0 where
  connect_call : String → Event Net J
  login_call : String → String → Event Net J
  register_call : String → String → String → Event Net J
  message_call : J → Event Net J
  search_call : String → Event Net J
  add_friend_call : ℤ → ℤ → Event Net J
  friends_call : ℤ → Event Net J
  history_call : ℤ → ℤ → Event Net J
  disconnect_call : Event Net J
  use_proxy_call : Bool → Event Net J
  socket_connected : Event Net J
  socket_notice : Notice → Event Net J
  text_received : String → Event Net J
  reply_finished : Option Reply → Event Net J
  network_changed : Net → Event Net J

module _ {Net J A : Type 0} (json : Json J A) (web : WebSocket Net) where
  unfoldable pub handle : Event Net J → NetworkManager Net J A → NetworkManager Net J A
  unfolding on_network_reply_finished
  handle (connect_call url) s = connect_to_server web url s
  handle (login_call username password) s = send_login_request json username password s
  handle (register_call username password email) s =
      send_register_request json username password email s
  handle (message_call message) s = send_message json web message s
  handle (search_call query) s = search_user json web query s
  handle (add_friend_call user_id friend_id) s =
      send_add_friend_request json web user_id friend_id s
  handle (friends_call user_id) s = get_friends_list json web user_id s
  handle (history_call user_id friend_id) s = get_chat_history json web user_id friend_id s
  handle disconnect_call s = disconnect_from_server web s
  handle (use_proxy_call use_proxy) s = set_use_proxy use_proxy s
  handle socket_connected s = on_connected s
  handle (socket_notice n) s = notify web n s
  handle (text_received message) s = on_text_message_received json message s
  handle (reply_finished r) s = (on_network_reply_finished json web r s).1
  handle (network_changed net) s = record s { web_socket = net }

  unfoldable pub run : List (Event Net J) → NetworkManager Net J A → NetworkManager Net J A
  unfolding handle
  run [] s = s
  run (e ∷ es) s = run es (handle e s)

module _ {Net J A : Type 0} (json : Json J A) (web : WebSocket Net) where
  -- What every event keeps holds after every history.
  pub run-keeps :
      (P : NetworkManager Net J A → Type 0)
      → ((e : Event Net J) (s : NetworkManager Net J A) → P s → P (handle json web e s))
      → (es : List (Event Net J)) (s : NetworkManager Net J A) → P s
      → P (run json web es s)
  unfolding run
  run-keeps P h [] s p = p
  run-keeps P h (e ∷ es) s p = run-keeps P h es (handle json web e s) (h e s p)
