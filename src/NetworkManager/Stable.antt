-- ===== src/NetworkManager/Stable.antt =====
-- Which steps the handlers of Qtclient/backend/networkmanager.cpp are made of: what each of them keeps, every
-- handler keeps.
use qt_web_server_chat.Base.{
  ℕ, suc, String, Bool, true, false, Option, none, some, List, [], ◌∷◌, ◌≡◌, refl, arith, ◌==◌,
  if◌then◌else◌, inl, inr, Option-cases,
}
use qt_web_server_chat.NetworkManager.{
  Json, WebSocket, NetworkManager, Signal, Notice, disconnected, error, login_response_received,
  search_user_response_received, add_friend_response_received, use_proxy_changed, clear_username,
  clear_user_id, current_username_changed, current_user_id_changed, set_use_proxy, on_connected,
  on_disconnected, on_error, notify, notify_all, on_socket, disconnect_from_server,
  connect_to_server, send_login_request, send_register_request, establish_web_socket_connection,
  is_unconnected, is_connected, emit, Post,
}
use qt_web_server_chat.NetworkManager.Replies.{
  Reply, read_all, format_error, register_verdict, on_register_request_finished, set_user, log_in,
  login_failed, pass_on, on_login_object, on_login_request_finished, dispatch_reply,
  on_network_reply_finished, received_signal, on_text_message_received, send_or, send_message,
  send_add_friend_request, get_friends_list, get_chat_history, search_user,
}
use qt_web_server_chat.NetworkManager.Events.{
  Event, connect_call, login_call, register_call, message_call, search_call, add_friend_call,
  friends_call, history_call, disconnect_call, use_proxy_call, socket_connected, socket_notice,
  text_received, reply_finished, network_changed, handle,
}

-- The signals that announce neither a property nor a login.
abbrev pub IsPlain : {J A : Type 0} → Signal J A → Type 0
IsPlain (login_response_received b m) = b ≡ false
IsPlain (use_proxy_changed b) = ⊥
IsPlain (current_username_changed u) = ⊥
IsPlain (current_user_id_changed u) = ⊥
IsPlain _ = Unit

abbrev pub opened : {Net J : Type 0} → Event Net J → ℕ → ℕ
opened socket_connected n = suc n
opened _ n = n

-- The steps that the handlers repeat keep the predicate.
pub record IsStable {Net J A : Type 0} (P : NetworkManager Net J A → Type 0) : Type 0 where
  pub plain : (m : Signal J A) (s : NetworkManager Net J A) → IsPlain m → P s → P (emit m s)
  pub network : (n : Net) (s : NetworkManager Net J A) → P s → P (record s { web_socket = n })
  pub request : (ps : List Post) (s : NetworkManager Net J A) → P s → P (record s { posted = ps })
  pub server : (u : String) (s : NetworkManager Net J A) → P s → P (record s { server_url = u })
  pub authorised : (t : String) (s : NetworkManager Net J A) → P s → P (record s { token = t })
  pub user : (u i : String) (s : NetworkManager Net J A) → P s → P (set_user u i s)
  pub no_username : (s : NetworkManager Net J A) → P s → P (clear_username s)
  pub no_user_id : (s : NetworkManager Net J A) → P s → P (clear_user_id s)
  pub proxy : (b : Bool) (s : NetworkManager Net J A) → P s → P (set_use_proxy b s)

module _ {Net J A : Type 0} (P : NetworkManager Net J A → Type 0) (k : IsStable P) where
  on_disconnected-IsStable : (s : NetworkManager Net J A) → P s → P (on_disconnected s)
  unfolding on_disconnected
  on_disconnected-IsStable s p = k.no_user_id _ (k.no_username _ (k.plain _ s tt p))

module _ {Net J A : Type 0} (web : WebSocket Net) (P : NetworkManager Net J A → Type 0)
    (k : IsStable P) where
  pub notify-IsStable : (n : Notice) (s : NetworkManager Net J A) → P s → P (notify web n s)
  unfolding notify on_error
  notify-IsStable disconnected s p = on_disconnected-IsStable P k s p
  notify-IsStable error s p = k.plain _ s tt p

  notify_all-IsStable :
      (ns : List Notice) (s : NetworkManager Net J A) → P s → P (notify_all web ns s)
  unfolding notify_all
  notify_all-IsStable [] s p = p
  notify_all-IsStable (n ∷ ns) s p = notify_all-IsStable ns (notify web n s) (notify-IsStable n s p)

  on_socket-IsStable :
      (call : Net → List Notice × Net) (s : NetworkManager Net J A) → P s → P (on_socket web call s)
  unfolding on_socket
  on_socket-IsStable call s p = notify_all-IsStable (call s.web_socket).0 _ (k.network _ s p)

  if-IsStable : (b : Bool) (s t : NetworkManager Net J A) → P s → P t → P (if b then s else t)
  if-IsStable true s t p q = p
  if-IsStable false s t p q = q

  disconnect-IsStable : (s : NetworkManager Net J A) → P s → P (disconnect_from_server web s)
  unfolding disconnect_from_server
  disconnect-IsStable s p = k.no_user_id _ (
      k.no_username _ (
        if-IsStable (is_unconnected (web.state s.web_socket)) s (on_socket web web.abort s) p
          (on_socket-IsStable web.abort s p)))

  establish-IsStable :
      (s : NetworkManager Net J A) → P s → P (establish_web_socket_connection web s)
  unfolding establish_web_socket_connection
  establish-IsStable s p =
      on_socket-IsStable (web.open_url (web.url s.server_url "ws" (("token", s.token) ∷ []))) _ (
        if-IsStable (is_unconnected (web.state s.web_socket)) s (on_socket web web.close s) p
          (on_socket-IsStable web.close s p))

module _ {Net J A : Type 0} (json : Json J A) (web : WebSocket Net)
    (P : NetworkManager Net J A → Type 0) (k : IsStable P) where
  verdict-IsPlain : (o : Option J) → IsPlain (register_verdict json o)
  unfolding register_verdict
  verdict-IsPlain none = tt
  verdict-IsPlain (some obj) = ground arith

  on_register-IsStable :
      (r : Reply) (s : NetworkManager Net J A) → P s → P (on_register_request_finished json r s).1
  unfolding on_register_request_finished
  on_register-IsStable r s p = elim (Option-cases r.error) [
    | inl e ↦ rw e (k.plain _ s (verdict-IsPlain (json.from_json r.body)) p)
    | inr (m, e) ↦ rw e (k.plain _ s tt p)
  ]

  log_in-IsStable :
      (username : String) (obj : J) (s : NetworkManager Net J A)
      → P s
      → P (log_in json web username obj s)
  unfolding log_in
  log_in-IsStable username obj s p =
      establish-IsStable web P k _ (k.user _ _ _ (k.authorised _ s p))

  login_failed-IsStable :
      (r : Reply) (obj : J) (s : NetworkManager Net J A) → P s → P (login_failed json web r obj s).1
  unfolding login_failed
  login_failed-IsStable r obj s p = k.plain _ s refl p

  pass_on-IsStable : (r : Reply) (s : NetworkManager Net J A) → P s → P (pass_on json web r s).1
  unfolding pass_on
  pass_on-IsStable r s p = on_register-IsStable r s p

  on_login_object-IsStable :
      (r : Reply) (obj : J) (s : NetworkManager Net J A)
      → P s
      → P (on_login_object json web r obj s).1
  unfolding on_login_object
  on_login_object-IsStable r obj s p = ground (
    arith,
    log_in-IsStable r.username obj s p,
    login_failed-IsStable r obj s p,
    pass_on-IsStable r s p,
  )

  on_login-IsStable :
      (r : Reply) (s : NetworkManager Net J A) → P s → P (on_login_request_finished json web r s).1
  unfolding on_login_request_finished
  on_login-IsStable r s p = elim (Option-cases r.error) [
    | inl e ↦ elim (Option-cases (json.from_json r.body)) [
      | inl f ↦
          simp (e, f, on_login_request_finished)
            (k.plain (login_response_received false format_error) s refl p)
      | inr (obj, f) ↦
          simp (e, f, on_login_request_finished)
            (on_login_object-IsStable (read_all (record r { error = none })) obj s p)
    ]
    | inr (m, e) ↦ rw e (k.plain _ s refl p)
  ]

  dispatch-IsStable :
      (r : Reply) (s : NetworkManager Net J A) → P s → P (dispatch_reply json web r s).1
  unfolding dispatch_reply
  dispatch-IsStable r s p = elim (Option-cases r.error) [
    | inl e ↦ rw e (ground (arith, on_login-IsStable r s p, on_register-IsStable r s p))
    | inr (m, e) ↦ rw e (
        if-IsStable web P k (r.path == "/login") _ _ (k.plain _ s refl p)
          (if-IsStable web P k (r.path == "/register") _ _ (k.plain _ s tt p) p))
  ]

  received-IsPlain : (obj : J) → IsPlain (received_signal json obj)
  unfolding received_signal
  received-IsPlain obj = ground arith

  text-IsStable :
      (m : String) (s : NetworkManager Net J A) → P s → P (on_text_message_received json m s)
  unfolding on_text_message_received
  text-IsStable m s p = elim (Option-cases (json.from_json m)) [
    | inl e ↦ rw (e, on_text_message_received) p
    | inr (obj, e) ↦ rw (e, on_text_message_received) (k.plain _ s (received-IsPlain obj) p)
  ]

  send_or-IsStable :
      (obj : J) (otherwise : NetworkManager Net J A → NetworkManager Net J A)
      → ((s : NetworkManager Net J A) → P s → P (otherwise s))
      → (s : NetworkManager Net J A) → P s
      → P (send_or json web obj otherwise s)
  unfolding send_or
  send_or-IsStable obj otherwise h s p =
      if-IsStable web P k (is_connected (web.state s.web_socket)) _ _ (k.network _ s p) (h s p)

  search-IsStable :
      (query : String) (s : NetworkManager Net J A) → P s → P (search_user json web query s)
  unfolding search_user
  search-IsStable query s p = if-IsStable web P k (query == "") _ _ p (
      send_or-IsStable _ (emit (search_user_response_received json.empty_array))
        (λ t q. k.plain _ t tt q) s p)

  finished-IsStable :
      (r : Option Reply) (s : NetworkManager Net J A)
      → P s
      → P (on_network_reply_finished json web r s).1
  unfolding on_network_reply_finished
  finished-IsStable none s p = p
  finished-IsStable (some r) s p = dispatch-IsStable r s p

module _ {Net J A : Type 0} (json : Json J A) (web : WebSocket Net)
    (P : ℕ → NetworkManager Net J A → Type 0) (k : (n : ℕ) → IsStable (P n)) where
  -- What the steps keep, every handler keeps, the slot for an opened connection apart.
  pub handle-IsStable :
      ((n : ℕ) (s : NetworkManager Net J A) → P n s → P (suc n) (on_connected s))
      → (n : ℕ) (e : Event Net J) (s : NetworkManager Net J A) → P n s
      → P (opened e n) (handle json web e s)
  unfolding handle connect_to_server send_login_request send_register_request send_message
      send_add_friend_request get_friends_list get_chat_history
  handle-IsStable h n (connect_call url) s p =
      (k n).server url _ (disconnect-IsStable web (P n) (k n) s p)
  handle-IsStable h n (login_call username password) s p = (k n).request _ s p
  handle-IsStable h n (register_call username password email) s p = (k n).request _ s p
  handle-IsStable h n (message_call message) s p =
      send_or-IsStable json web (P n) (k n) message (λ t. t) (λ t q. q) s p
  handle-IsStable h n (search_call query) s p = search-IsStable json web (P n) (k n) query s p
  handle-IsStable h n (add_friend_call user_id friend_id) s p =
      send_or-IsStable json web (P n) (k n) _ (emit (add_friend_response_received false "网络未连接"))
        (λ t q. (k n).plain _ t tt q) s p
  handle-IsStable h n (friends_call user_id) s p =
      send_or-IsStable json web (P n) (k n) _ (λ t. t) (λ t q. q) s p
  handle-IsStable h n (history_call user_id friend_id) s p =
      send_or-IsStable json web (P n) (k n) _ (λ t. t) (λ t q. q) s p
  handle-IsStable h n disconnect_call s p = disconnect-IsStable web (P n) (k n) s p
  handle-IsStable h n (use_proxy_call b) s p = (k n).proxy b s p
  handle-IsStable h n socket_connected s p = h n s p
  handle-IsStable h n (socket_notice m) s p = notify-IsStable web (P n) (k n) m s p
  handle-IsStable h n (text_received m) s p = text-IsStable json web (P n) (k n) m s p
  handle-IsStable h n (reply_finished r) s p = finished-IsStable json web (P n) (k n) r s p
  handle-IsStable h n (network_changed m) s p = (k n).network m s p
