-- ===== src/HttpSession/Login.antt =====
-- From a login to a WebSocket session, in Services/GateServer/http_session.cpp.
use qt_web_server_chat.Base.{
  ℕ, ◌+◌, ◌<◌, ◌≡◌, ◌≢◌, refl, ap, ◌∙◌, String, Bool, true, false, Option, none, some, [], ◌∷◌,
  ◌++◌, arith, ◌==◌, if◌then◌else◌, eqb, length, pos, to_string, done, Returns, codes,
  from_codes-codes, lookup, lookup-insert_self, eq_refl, Bool-cases, inl, inr,
}
use qt_web_server_chat.ConnectionManager.{add_connection}
use qt_web_server_chat.ConnectionManager.Links.{listed, listed-add}
use qt_web_server_chat.DatabaseManager.{Mysql, DatabaseManager}
use qt_web_server_chat.DatabaseManager.Users.{get_user_by_username}
use qt_web_server_chat.WebSocketManager.{get_session, get-add_session}
use qt_web_server_chat.HttpSession.Token.{
  Text, take, find, text_eq, underscore, prefix, generate_token,
}
use qt_web_server_chat.HttpSession.Token.Format.{Avoids, verify-generate_token}
use qt_web_server_chat.HttpSession.Token.Numbers.{id-Avoids, token-Avoids, id-ne-nil}
use qt_web_server_chat.HttpSession.Request.{
  ok, unauthorized, error_body, send_error_response, send_json_response, send_response, do_write,
  HttpRequest, HttpSession, find_text,
}
use qt_web_server_chat.HttpSession.Handlers.{BoostJson, Readings, login_body, answer_login, log_in}
use qt_web_server_chat.HttpSession.Lifecycle.{
  token_of_target, token_of, verify_websocket_handshake, upgrade, on_request,
}

find-none : (c : ℕ) (s : Text) → Avoids c s → find c s 0 ≡ none
unfolding find
find-none c [] h = refl
find-none c (x ∷ s) h = ground (arith, find-none c s h.1)

pub take-all : (s : Text) → take (length s) s ≡ s
take-all [] = refl
take-all (x ∷ s) = ap (◌∷◌ x) (take-all s)

-- The target that the client asks for.
abbrev pub target_of : Text → Text
target_of token = codes "/?token=" ++ token

ampersand : (d : ℕ) → d < 10 → 48 + d ≢ b'&'
ampersand d h e = absurd (omega (arith, e))

low_line : (d : ℕ) → d < 10 → 48 + d ≢ underscore
low_line d h e = absurd (omega (arith, e))

token-target_of : (token : Text) → Avoids b'&' token → token_of_target (target_of token) ≡ token
unfolding token_of_target find_text find
token-target_of token h =
    rw (find-none b'&' token h) (ap (λ (n : ℕ). take n token) (omega arith) ∙ take-all token)

-- The token that a login gives to the user with an id.
abbrev pub token_for : ℕ → ℕ → ℕ → Text
token_for id nanoseconds salt = generate_token (codes (to_string (pos id))) nanoseconds salt

prefix-Avoids : Avoids b'&' prefix
prefix-Avoids =
    let no : (n : ℕ) → eqb n b'&' ≡ false → n ≢ b'&' = λ n h e. absurd (ground (arith, h, e)) in
    (
      no b't' refl,
      (no b'o' refl, (no b'k' refl, (no b'e' refl, (no b'n' refl, (no b'_' refl, tt))))),
    )

token_of-token_for :
    (id nanoseconds salt : ℕ) (req : HttpRequest)
    → req.target ≡ target_of (token_for id nanoseconds salt)
    → token_of req ≡ token_for id nanoseconds salt
unfolding token_of generate_token
token_of-token_for id nanoseconds salt req at_target =
    let token = token_for id nanoseconds salt in
    let found : token_of_target req.target ≡ token =
      ap token_of_target at_target
      ∙ token-target_of token (
          token-Avoids b'&' ampersand id nanoseconds salt prefix-Avoids
            (λ e. absurd (omega (arith, e)))) in
    rw found refl

token_for-ne-nil : (id nanoseconds salt : ℕ) → text_eq (token_for id nanoseconds salt) [] ≡ false
unfolding generate_token
token_for-ne-nil id nanoseconds salt = refl

module _ {Srv : Type 0} where
  pub handshake-token_for :
      (id nanoseconds salt : ℕ) (s : HttpSession Srv)
      → s.req.target ≡ target_of (token_for id nanoseconds salt)
      → verify_websocket_handshake s ≡ done true (record s { user_id = to_string (pos id) })
  unfolding verify_websocket_handshake
  handshake-token_for id nanoseconds salt s at_target = simp (
    token_of-token_for id nanoseconds salt s.req at_target,
    token_for-ne-nil id nanoseconds salt,
    verify-generate_token (codes (to_string (pos id))) nanoseconds salt (id-ne-nil id)
        (id-Avoids underscore low_line id),
    from_codes-codes,
    verify_websocket_handshake,
  )

  upgrade_lem :
      (ws now : ℕ) (s : HttpSession Srv)
      → s.connections.locked ≡ false
      → Returns
          (λ t.
            (get_session t.sessions s.user_id ≡ some ws)
            × (lookup s.session_id t.connections.session_to_user ≡ some s.user_id)
            × (listed s.user_id s.session_id t.connections.user_sessions ≡ true)
            × (t.upgraded ≡ (s.user_id, s.session_id) ∷ s.upgraded)
            × (t.written ≡ s.written))
          (upgrade ws now s)
  unfolding upgrade add_connection
  upgrade_lem ws now s free = ground (
    arith,
    get-add_session s.sessions s.user_id s.user_id ws,
    eq_refl s.user_id,
    eq_refl s.session_id,
    listed-add s.user_id s.session_id s.user_id s.session_id
        (record { session_id = s.session_id; last_activity = now; ip_address = "" })
        s.connections.user_sessions,
    lookup-insert_self s.session_id s.user_id s.connections.session_to_user,
  )

module _ {Srv V : Type 0} (mysql : Mysql Srv) (json : BoostJson V) (sha256 : String → String)
    (is_upgrade : HttpRequest → Bool) (now : Readings) where
  -- A request to become a WebSocket session whose target carries the token that a login has given to the user with an
  -- id, at whatever time and with whatever salt, is granted, with the connection manager's mutex
  -- free: the WebSocket manager has the new session for that user, the connection manager lists
  -- the HTTP session's id for that user, and files it back to the user, a WebSocket session with both begins, and no response
  -- is sent.
  pub on_request-token_for :
      (id nanoseconds salt ws : ℕ) (s : HttpSession Srv)
      → is_upgrade s.req ≡ true
      → s.req.target ≡ target_of (token_for id nanoseconds salt)
      → s.connections.locked ≡ false
      → Returns
          (λ t.
            (get_session t.sessions (to_string (pos id)) ≡ some ws)
            × (lookup s.session_id t.connections.session_to_user ≡ some (to_string (pos id)))
            × (listed (to_string (pos id)) s.session_id t.connections.user_sessions ≡ true)
            × (t.upgraded ≡ (to_string (pos id), s.session_id) ∷ s.upgraded)
            × (t.written ≡ s.written))
          (on_request mysql json sha256 is_upgrade now ws s)
  unfolding on_request
  on_request-token_for id nanoseconds salt ws s wanted at_target free =
      simp (wanted, handshake-token_for id nanoseconds salt s at_target, on_request)
        (upgrade_lem ws now.steady (record s { user_id = to_string (pos id) }) free)

-- Whether a password is the one of the user whom the database knows, if it does.
abbrev pub matches : (String → String) → String → Option (ℕ × String) → Bool
matches sha256 password none = false
matches sha256 password (some (id, hash)) = sha256 password == hash

-- The body of the answer to a login.
abbrev pub verdict : Readings → Bool → Option (ℕ × String) → String
verdict now true (some (id, hash)) =
    login_body (token_for id now.nanoseconds now.salt) (to_string (pos id))
verdict now _ found = error_body "Invalid username or password"

module _ {Srv V : Type 0} (mysql : Mysql Srv) (json : BoostJson V) (sha256 : String → String)
    (now : Readings) where
  -- A login whose body gives a name and a password, and whose question to the database gets an
  -- answer, is answered once: with status 200 and the token for the user's id if the database
  -- knows the user with the hash of that password; else with status 401 and a body that is the same for an unknown
  -- user and a wrong password.
  pub log_in_lem :
      (username password : String) (found : Option (ℕ × String)) (db : DatabaseManager Srv)
      (s : HttpSession Srv)
      → get_user_by_username mysql username s.db ≡ done found db
      → Returns
          (λ t.
            (t.written ≡ t.res ∷ s.written)
            × (t.db ≡ db)
            × (t.res.result ≡ (if matches sha256 password found then ok else unauthorized))
            × (t.res.body ≡ verdict now (matches sha256 password found) found))
          (log_in mysql json sha256 now (some (username ∷ password ∷ [])) s)
  unfolding log_in answer_login send_error_response send_json_response send_response do_write
  log_in_lem username password none db s e = simp (e, log_in) (refl, refl, refl, refl)
  log_in_lem username password (some (id, hash)) db s e =
      elim (Bool-cases (sha256 password == hash)) [
        | inl m ↦ simp (e, m, log_in) (refl, refl, refl, refl)
        | inr m ↦ simp (e, m, log_in) (refl, refl, refl, refl)
      ]
