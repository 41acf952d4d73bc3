-- ===== src/NetworkManager/Entering.antt =====
-- The client of Qtclient/backend/networkmanager.cpp when the server lets the user in.
use qt_web_server_chat.Base.{
  String, true, none, some, [], ◌∷◌, ◌≡◌, refl, ap, ◌∙◌, arith, ◌==◌, eq_iff, Bool-cases, inl, inr,
}
use qt_web_server_chat.NetworkManager.{
  Json, WebSocket, NetworkManager, on_socket, notify_all, is_unconnected,
  establish_web_socket_connection,
}
use qt_web_server_chat.NetworkManager.Replies.{
  Reply, set_user, log_in, on_login_object, on_login_request_finished, dispatch_reply,
}

-- The user and the token that the client holds.
unfoldable pub Holds :
    {Net J A : Type 0} → String → String → String → NetworkManager Net J A → Type 0
Holds username user_id token s =
    (s.current_username ≡ username) × (s.current_user_id ≡ user_id) × (s.token ≡ token)

module _ {Net J A : Type 0} where
  named :
      (username user_id : String) (s : NetworkManager Net J A)
      → Holds username user_id s.token (set_user username user_id s)
  unfolding set_user Holds
  named username user_id s = elim (Bool-cases (s.current_username == username)) [
    | inl e ↦ elim (Bool-cases (s.current_user_id == user_id)) [
      | inl f ↦
          simp (e, f, set_user)
            ((eq_iff s.current_username username).0 e, (eq_iff s.current_user_id user_id).0 f, refl)
      | inr f ↦ simp (e, f, set_user) ((eq_iff s.current_username username).0 e, refl, refl)
    ]
    | inr e ↦ elim (Bool-cases (s.current_user_id == user_id)) [
      | inl f ↦ simp (e, f, set_user) (refl, (eq_iff s.current_user_id user_id).0 f, refl)
      | inr f ↦ simp (e, f, set_user) (refl, refl, refl)
    ]
  ]

  set_user-web_socket :
      (username user_id : String) (s : NetworkManager Net J A)
      → (set_user username user_id s).web_socket ≡ s.web_socket
  unfolding set_user
  set_user-web_socket username user_id s = ground arith

module _ {Net J A : Type 0} (json : Json J A) (web : WebSocket Net) where
  -- A socket that is not connected reports nothing while it is opened.
  establish-Holds :
      (username user_id token : String) (s : NetworkManager Net J A)
      → Holds username user_id token s
      → is_unconnected (web.state s.web_socket) ≡ true
      → ((url : String) (n : Net) → (web.open_url url n).0 ≡ [])
      → Holds username user_id token (establish_web_socket_connection web s)
  unfolding establish_web_socket_connection on_socket notify_all Holds
  establish-Holds username user_id token s h idle quiet =
      rw (idle, establish_web_socket_connection, on_socket)
        (rw (quiet (web.url s.server_url "ws" (("token", s.token) ∷ [])) s.web_socket, notify_all)
          h)

  log_in-Holds :
      (username : String) (obj : J) (s : NetworkManager Net J A)
      → is_unconnected (web.state s.web_socket) ≡ true
      → ((url : String) (n : Net) → (web.open_url url n).0 ≡ [])
      → Holds username
          (json.string_at obj "userId")
          (json.string_at obj "token")
          (log_in json web username obj s)
  unfolding log_in
  log_in-Holds username obj s idle quiet =
      establish-Holds username _ _ _
        (named username (json.string_at obj "userId")
          (record s { token = json.string_at obj "token" }))
        (rw
          (set_user-web_socket username (json.string_at obj "userId")
            (record s { token = json.string_at obj "token" }))
          idle)
        quiet

  -- The reply of a server that lets the user in.
  pub dispatch_reply-Holds :
      (r : Reply) (obj : J) (s : NetworkManager Net J A)
      → r.path ≡ "/login"
      → r.error ≡ none
      → json.from_json r.body ≡ some obj
      → json.contains obj "type" ≡ true
      → json.string_at obj "type" ≡ "login_success"
      → is_unconnected (web.state s.web_socket) ≡ true
      → ((url : String) (n : Net) → (web.open_url url n).0 ≡ [])
      → Holds r.username
          (json.string_at obj "userId")
          (json.string_at obj "token")
          (dispatch_reply json web r s).1
  unfolding dispatch_reply on_login_request_finished on_login_object
  dispatch_reply-Holds r obj s path good body typed success idle quiet =
      simp
        (
          path, good, body, typed, success, dispatch_reply, on_login_request_finished,
          on_login_object,
        )
        (log_in-Holds r.username obj s idle quiet)

module _ {Net J A : Type 0} (json : Json J A) (web : WebSocket Net) (opened : Net → String) where
  set_user-same :
      (username user_id : String) (s : NetworkManager Net J A)
      → ((set_user username user_id s).server_url ≡ s.server_url)
        × ((set_user username user_id s).token ≡ s.token)
  unfolding set_user
  set_user-same username user_id s = ground arith

  establish-opened :
      (s : NetworkManager Net J A)
      → is_unconnected (web.state s.web_socket) ≡ true
      → ((url : String) (n : Net) → (web.open_url url n).0 ≡ [])
      → ((url : String) (n : Net) → opened (web.open_url url n).1 ≡ url)
      → opened (establish_web_socket_connection web s).web_socket
        ≡ web.url s.server_url "ws" (("token", s.token) ∷ [])
  unfolding establish_web_socket_connection on_socket notify_all
  establish-opened s idle quiet notes =
      rw (idle, establish_web_socket_connection, on_socket)
        (rw (quiet (web.url s.server_url "ws" (("token", s.token) ∷ [])) s.web_socket, notify_all)
          (notes (web.url s.server_url "ws" (("token", s.token) ∷ [])) s.web_socket))

  log_in-opened :
      (username : String) (obj : J) (s : NetworkManager Net J A)
      → is_unconnected (web.state s.web_socket) ≡ true
      → ((url : String) (n : Net) → (web.open_url url n).0 ≡ [])
      → ((url : String) (n : Net) → opened (web.open_url url n).1 ≡ url)
      → opened (log_in json web username obj s).web_socket
        ≡ web.url s.server_url "ws" (("token", json.string_at obj "token") ∷ [])
  unfolding log_in
  log_in-opened username obj s idle quiet notes =
      let held = record s { token = json.string_at obj "token" } in
      let user = set_user username (json.string_at obj "userId") held in
      let (u, t) = set_user-same username (json.string_at obj "userId") held in
      establish-opened user
        (rw (set_user-web_socket username (json.string_at obj "userId") held) idle) quiet notes
      ∙ ap (λ url. web.url url "ws" (("token", user.token) ∷ [])) u
      ∙ ap (λ token. web.url s.server_url "ws" (("token", token) ∷ [])) t

  -- The URL that the client opens its socket with.
  pub dispatch_reply-opened :
      (r : Reply) (obj : J) (s : NetworkManager Net J A)
      → r.path ≡ "/login"
      → r.error ≡ none
      → json.from_json r.body ≡ some obj
      → json.contains obj "type" ≡ true
      → json.string_at obj "type" ≡ "login_success"
      → is_unconnected (web.state s.web_socket) ≡ true
      → ((url : String) (n : Net) → (web.open_url url n).0 ≡ [])
      → ((url : String) (n : Net) → opened (web.open_url url n).1 ≡ url)
      → opened (dispatch_reply json web r s).1.web_socket
        ≡ web.url s.server_url "ws" (("token", json.string_at obj "token") ∷ [])
  unfolding dispatch_reply on_login_request_finished on_login_object
  dispatch_reply-opened r obj s path good body typed success idle quiet notes =
      simp
        (
          path, good, body, typed, success, dispatch_reply, on_login_request_finished,
          on_login_object,
        )
        (log_in-opened r.username obj s idle quiet notes)
