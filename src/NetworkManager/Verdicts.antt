-- ===== src/NetworkManager/Verdicts.antt =====
-- What the replies to the requests of Qtclient/backend/networkmanager.cpp lead to.
use qt_web_server_chat.Base.{
  ℕ, suc, String, Bool, true, false, ◌&&◌, ◌||◌, none, some, List, [], ◌∷◌, ◌≡◌, refl, ◌∙◌, arith,
  ◌==◌, if◌then◌else◌, inl, inr, Option-cases,
}
use qt_web_server_chat.NetworkManager.{
  Json, WebSocket, NetworkManager, Signal, Notice, disconnected, error, login_response_received,
  register_response_received, clear_username, clear_user_id, on_disconnected, on_error, notify,
  notify_all, on_socket, establish_web_socket_connection,
}
use qt_web_server_chat.NetworkManager.Replies.{
  Reply, delete_later, read_all, register_verdict, on_register_request_finished, set_user, log_in,
  login_failed, pass_on, on_login_object, on_login_request_finished, dispatch_reply,
}

module _ {J A : Type 0} where
  abbrev answered : Signal J A → ℕ → ℕ
  answered (login_response_received b m) n = suc n
  answered (register_response_received b m) n = suc n
  answered _ n = n

  -- The signals that tell how a request ended.
  unfoldable pub answers : List (Signal J A) → ℕ
  answers [] = 0
  answers (m ∷ ms) = answered m (answers ms)

-- The reply of a server that lets the user in.
abbrev is_success : {J A : Type 0} → Json J A → J → Bool
is_success json obj = json.contains obj "type" && (json.string_at obj "type" == "login_success")

unfoldable pub accepted : {J A : Type 0} → Json J A → Reply → Bool
accepted json r = (r.path == "/login") && elim r.error [
  | some e ↦ false
  | none ↦ elim (json.from_json r.body) [ none ↦ false | some obj ↦ is_success json obj ]
]

module _ {Net J A : Type 0} (web : WebSocket Net) where
  notify-answers :
      (n : Notice) (s : NetworkManager Net J A)
      → answers (notify web n s).signals ≡ answers s.signals
  unfolding notify on_disconnected on_error clear_username clear_user_id answers
  notify-answers disconnected s = ground arith
  notify-answers error s = refl

  notify_all-answers :
      (ns : List Notice) (s : NetworkManager Net J A)
      → answers (notify_all web ns s).signals ≡ answers s.signals
  unfolding notify_all
  notify_all-answers [] s = refl
  notify_all-answers (n ∷ ns) s = notify_all-answers ns (notify web n s) ∙ notify-answers n s

  on_socket-answers :
      (call : Net → List Notice × Net) (s : NetworkManager Net J A)
      → answers (on_socket web call s).signals ≡ answers s.signals
  unfolding on_socket
  on_socket-answers call s = notify_all-answers (call s.web_socket).0 _

  establish-answers :
      (s : NetworkManager Net J A)
      → answers (establish_web_socket_connection web s).signals ≡ answers s.signals
  unfolding establish_web_socket_connection
  establish-answers s =
      on_socket-answers (web.open_url (web.url s.server_url "ws" (("token", s.token) ∷ []))) _
      ∙ ground (arith, on_socket-answers web.close s)

module _ {Net J A : Type 0} (json : Json J A) (web : WebSocket Net) where
  log_in-answers :
      (username : String) (obj : J) (s : NetworkManager Net J A)
      → answers (log_in json web username obj s).signals ≡ answers s.signals
  unfolding log_in set_user answers
  log_in-answers username obj s = establish-answers web _ ∙ ground arith

  register-answers :
      (r : Reply) (s : NetworkManager Net J A)
      → (answers (on_register_request_finished json r s).1.signals ≡ suc (answers s.signals))
        × ((on_register_request_finished json r s).0.deleted ≡ true)
  unfolding on_register_request_finished register_verdict delete_later read_all answers
  register-answers r s = ground arith

  object-answers :
      (r : Reply) (obj : J) (s : NetworkManager Net J A)
      → (answers (on_login_object json web r obj s).1.signals
          ≡ (if is_success json obj then answers s.signals else suc (answers s.signals)))
        × ((on_login_object json web r obj s).0.deleted ≡ true)
  unfolding on_login_object login_failed pass_on delete_later answers
  object-answers r obj s = ground (arith, log_in-answers r.username obj s, register-answers r s)

  login-answers :
      (r : Reply) (s : NetworkManager Net J A)
      → r.path == "/login" ≡ true
      → r.error ≡ none
      → (answers (on_login_request_finished json web r s).1.signals
          ≡ (if accepted json r then answers s.signals else suc (answers s.signals)))
        × ((on_login_request_finished json web r s).0.deleted ≡ true)
  unfolding on_login_request_finished accepted delete_later read_all answers
  login-answers r s at_login e = elim (Option-cases (json.from_json r.body)) [
    | inl f ↦ ground arith
    | inr (obj, f) ↦ ground (arith, object-answers (read_all r) obj s)
  ]

  -- Every reply to a request of the client, whether the network failed or the server answered with
  -- whatever text, is deleted, and answers the request with exactly one response signal, unless it
  -- is the reply of a server that lets the user in: then there is none yet.
  pub dispatch_reply-answers :
      (r : Reply) (s : NetworkManager Net J A)
      → (r.path == "/login") || (r.path == "/register") ≡ true
      → (answers (dispatch_reply json web r s).1.signals
          ≡ (if accepted json r then answers s.signals else suc (answers s.signals)))
        × ((dispatch_reply json web r s).0.deleted ≡ true)
  unfolding dispatch_reply accepted delete_later answers
  dispatch_reply-answers r s known = elim (Option-cases r.error) [
    | inl e ↦ ground (arith, login-answers r s, register-answers r s)
    | inr (m, e) ↦ ground arith
  ]
