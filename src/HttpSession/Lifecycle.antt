-- ===== src/HttpSession/Lifecycle.antt =====
-- A session of Services/GateServer/http_session.cpp from its start to its end: reading, the upgrade to a WebSocket
-- session, and the handlers that run when a read or a write is done.
use qt_web_server_chat.Base.{
  ℕ, suc, ◌+◌, ◌-◌, String, Bool, true, false, not, ◌&&◌, Option, none, some, List, [], ◌∷◌, ◌==◌,
  ◌⊎◌, inl, inr, if◌then◌else◌, ltb, length, lookup, Exec, pure, throw, ◌>>=◌, ◌>>◌, codes,
  from_codes,
}
use qt_web_server_chat.ConnectionManager.{add_connection, remove_connection}
use qt_web_server_chat.WebSocketManager.{add_session}
use qt_web_server_chat.CryptoUtils.{hex}
use qt_web_server_chat.DatabaseManager.{Mysql}
use qt_web_server_chat.HttpSession.Token.{Text, substr, text_eq, drop, find, verify_token}
use qt_web_server_chat.HttpSession.Request.{
  HttpRequest, no_request, HttpSession, unauthorized, on_connections, send_error_response,
  find_text,
}
use qt_web_server_chat.HttpSession.Handlers.{BoostJson, Readings, on_read}

-- What a read or a write may end with, if not well.
pub data Error : Type 0 where
  end_of_stream eof : Error
  other_error : String → Error

-- The bytes that RAND_bytes gave, if it did, and the text of a random uuid.
unfoldable pub generate_session_id : Option (List ℕ) → String → String
unfolding hex
generate_session_id none uuid = uuid
generate_session_id (some buffer) uuid = hex buffer

-- The first text that is not empty.
abbrev pub or_else : Text → Text → Text
or_else [] t = t
or_else (c ∷ s) t = c ∷ s

abbrev pub or_length : Option ℕ → Text → ℕ
or_length none s = length s
or_length (some p) s = p

-- The parameter "token" of the target, up to the next &.
unfoldable pub token_of_target : Text → Text
unfolding find_text
token_of_target target = elim (find_text (codes "token=") target) [
  | none ↦ []
  | some pos ↦ substr target (pos + 6) (or_length (find b'&' target pos) target - pos - 6)
]

unfoldable pub token_of_bearer : Option Text → Text
token_of_bearer none = []
token_of_bearer (some auth_header) =
    if ltb 7 (length auth_header) && text_eq (substr auth_header 0 7) (codes "Bearer ")
    then drop 7 auth_header
    else []

abbrev pub field_or_empty : Option Text → Text
field_or_empty none = []
field_or_empty (some t) = t

unfoldable pub token_of : HttpRequest → Text
unfolding token_of_target token_of_bearer
token_of req =
    or_else
      (or_else (token_of_target req.target) (token_of_bearer (lookup "Authorization" req.fields)))
      (field_or_empty (lookup "Token" req.fields))

module _ {Srv : Type 0} where
  unfoldable pub verify_websocket_handshake : Exec (HttpSession Srv) Bool
  unfolding token_of
  verify_websocket_handshake s =
      let token = token_of s.req in
      if text_eq token [] then pure false s else elim (verify_token token) [
        | none ↦ pure false s
        | some user_id ↦ pure true (record s { user_id = from_codes user_id })
      ]

  -- Begins to read a request.
  unfoldable pub do_read : Exec (HttpSession Srv) (Unit {0})
  do_read s = pure tt (record s { reads = suc s.reads })

  -- The last argument is what remote_endpoint gives, or `none` where it throws.
  unfoldable pub run : Option (List ℕ) → String → Option String → Exec (HttpSession Srv) (Unit {0})
  unfolding generate_session_id do_read
  run buffer uuid endpoint s =
      let t = record s { session_id = generate_session_id buffer uuid } in
      elim endpoint [ none ↦ throw t | some ep ↦ do_read t ]

  -- removeConnection, if the session has a user and an id.
  unfoldable pub forget : Exec (HttpSession Srv) (Unit {0})
  unfolding remove_connection
  forget s =
      if not (s.user_id == "") && not (s.session_id == "")
      then on_connections (remove_connection s.user_id s.session_id) s
      else pure tt s

  -- What follows is the log.
  unfoldable pub fail : Exec (HttpSession Srv) (Unit {0})
  unfolding forget
  fail = forget

  -- The error that the socket's shutdown gives, if any; eof is not reported. `shut` is set by a
  -- shutdown that succeeded.
  unfoldable pub do_close : Option Error → Exec (HttpSession Srv) (Unit {0})
  unfolding forget fail
  do_close error = forget >> elim error [
    | none ↦ (λ s. pure tt (record s { shut = true }))
    | some e ↦ elim e [ eof ↦ pure tt | end_of_stream ↦ fail | other_error m ↦ fail ]
  ]

  -- The new session's object is `ws`; its run goes on with the request.
  unfoldable pub upgrade : ℕ → ℕ → Exec (HttpSession Srv) (Unit {0})
  upgrade ws now =
      (λ s. pure tt (record s { sessions = add_session s.sessions s.user_id ws }))
      >> (λ s. on_connections (add_connection s.user_id s.session_id "" now) s)
      >> (λ s. pure tt (record s { upgraded = (s.user_id, s.session_id) ∷ s.upgraded }))

module _ {Srv V : Type 0} (mysql : Mysql Srv) (json : BoostJson V) (sha256 : String → String)
    (is_upgrade : HttpRequest → Bool) (now : Readings) where
  -- The handler of a read that gave a request; `is_upgrade` is Beast's test.
  unfoldable pub on_request : ℕ → Exec (HttpSession Srv) (Unit {0})
  unfolding verify_websocket_handshake upgrade on_read
  on_request ws s =
      if is_upgrade s.req
      then (verify_websocket_handshake >>= λ valid.
            if valid
            then upgrade ws now.steady
            else send_error_response unauthorized "Unauthorized: Invalid token")
          s
      else on_read mysql json sha256 now s

  -- The handler of `async_read`.
  unfoldable pub on_read_done :
      Error ⊎ HttpRequest → Option Error → ℕ → Exec (HttpSession Srv) (Unit {0})
  unfolding on_request do_close fail
  on_read_done (inl e) error ws = elim e [
    | end_of_stream ↦ do_close error
    | eof ↦ fail
    | other_error m ↦ fail
  ]
  on_read_done (inr req) error ws = λ s. on_request ws (record s { req = req })

module _ {Srv : Type 0} where
  -- The handler of `async_write`; the second argument is for the shutdown.
  unfoldable pub on_write_done : Option Error → Option Error → Exec (HttpSession Srv) (Unit {0})
  unfolding do_read do_close fail
  on_write_done (some e) error s = fail s
  on_write_done none error s =
      if s.res.keep_alive then do_read (record s { req = no_request }) else do_close error s
