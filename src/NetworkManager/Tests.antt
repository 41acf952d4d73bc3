-- ===== src/NetworkManager/Tests.antt =====
-- A client whose server lets the user in, with objects of texts alone.
use qt_web_server_chat.Base.{
  ◌≡◌, refl, String, true, false, ◌==◌, Option, none, some, List, [], ◌∷◌, if◌then◌else◌, to_string,
}
use qt_web_server_chat.NetworkManager.{
  Json, text, number, object, WebSocket, SocketState, unconnected, connecting, NetworkManager,
  disconnected, construct, disconnect_from_server,
}
use qt_web_server_chat.NetworkManager.Replies.{Reply, dispatch_reply}
use qt_web_server_chat.NetworkManager.Events.{
  Event, login_call, reply_finished, socket_connected, use_proxy_call, socket_notice, run,
}
use qt_web_server_chat.NetworkManager.Signals.{observe, properties, observe-run}
use qt_web_server_chat.NetworkManager.Logins.{logins, logins-run}
use qt_web_server_chat.NetworkManager.Proxy.{IsProxied, run-IsProxied}
use qt_web_server_chat.NetworkManager.Verdicts.{answers, accepted, dispatch_reply-answers}
use qt_web_server_chat.NetworkManager.Leaving.{renamings, disconnect_from_server_lem}

abbrev Object : Type 0
Object = List (String × String)

abbrev value : Object → String → Option String
value [] k = none
value ((j, v) ∷ o) k = if j == k then some v else value o k

abbrev json : Json Object (Unit {0})
json = record {
  from_json = λ s.
      if s == "ok"
      then some (("type", "login_success") ∷ ("token", "t") ∷ ("userId", "7") ∷ [])
      else none;
  to_json = λ o. "{}";
  empty_object = [];
  insert = λ k f o. (k, elim f [ text s ↦ s | number n ↦ to_string n | object p ↦ "{}" ]) ∷ o;
  contains = λ o k. elim (value o k) [ none ↦ false | some v ↦ true ];
  string_at = λ o k. elim (value o k) [ none ↦ "" | some v ↦ v ];
  bool_at = λ o k. false;
  array_at = λ o k. tt;
  empty_array = tt;
}

abbrev web : WebSocket SocketState
web = record {
  state = λ n. n;
  error_string = λ n. "refused";
  url = λ server scheme query. server;
  abort = λ n. (disconnected ∷ [], unconnected);
  close = λ n. (disconnected ∷ [], unconnected);
  open_url = λ url n. ([], connecting);
  send_text_message = λ m n. n;
}

abbrev login_reply : Reply
login_reply = record {
  path = "/login";
  username = "ann";
  error = none;
  body = "ok";
  deleted = false;
}

abbrev history : List (Event SocketState Object)
history =
    use_proxy_call true
    ∷ login_call "ann" "secret"
    ∷ reply_finished (some login_reply)
    ∷ socket_connected
    ∷ socket_notice disconnected
    ∷ []

abbrev client : NetworkManager SocketState Object (Unit {0})
client = construct unconnected

abbrev logged_in : NetworkManager SocketState Object (Unit {0})
logged_in = record client {
  current_username = "ann";
  current_user_id = "7";
  web_socket = connecting;
}

observe-run_example :
    observe (properties client) (run json web history client).signals
    ≡ properties (run json web history client)
observe-run_example = observe-run json web unconnected history

logins-run_example : logins (run json web history client).signals ≡ 1
unfolding logins construct
logins-run_example = logins-run json web history client

run-IsProxied_example : IsProxied (run json web history client)
run-IsProxied_example = run-IsProxied json web unconnected history

dispatch_reply-answers_example :
    (answers (dispatch_reply json web login_reply client).1.signals ≡ 0)
    × ((dispatch_reply json web login_reply client).0.deleted ≡ true)
unfolding accepted answers construct
dispatch_reply-answers_example = dispatch_reply-answers json web login_reply client refl

disconnect_from_server_lem_example :
    ((disconnect_from_server web logged_in).current_username ≡ "")
    × ((disconnect_from_server web logged_in).current_user_id ≡ "")
    × (renamings (disconnect_from_server web logged_in).signals ≡ 1)
unfolding renamings construct
disconnect_from_server_lem_example = disconnect_from_server_lem web logged_in
