-- ===== src/HttpSession/End.antt =====
-- The end of a session of Services/GateServer/http_session.cpp, and the id that it had.
use qt_web_server_chat.Base.{
  ◌≡◌, refl, String, Bool, true, false, Option, none, some, arith, ◌==◌, Returns, Triple,
  continue-Returns, Returns-weaken, eq_refl,
}
use qt_web_server_chat.ConnectionManager.{remove_connection}
use qt_web_server_chat.ConnectionManager.Links.{listed, listed-drop}
use qt_web_server_chat.HttpSession.Request.{HttpSession}
use qt_web_server_chat.HttpSession.Lifecycle.{
  Error, end_of_stream, eof, other_error, forget, fail, do_close,
}

-- Did the shutdown succeed, or was the socket shut before?
abbrev pub shut_after : Option Error → Bool → Bool
shut_after none shut = true
shut_after (some e) shut = shut

module _ {Srv : Type 0} where
  -- The connection manager has no session with the session's id for its user.
  IsForgotten : String → String → HttpSession Srv → Type 0
  IsForgotten user id s =
      (listed user id s.connections.user_sessions ≡ false)
      × (s.connections.locked ≡ false)
      × (s.user_id ≡ user)
      × (s.session_id ≡ id)

  -- Forgotten, with the flag of the shutdown as given.
  IsOver : String → String → Bool → HttpSession Srv → Type 0
  unfolding IsForgotten
  IsOver user id shut s = IsForgotten user id s × (s.shut ≡ shut)

  forget-shut :
      (s : HttpSession Srv)
      → (s.user_id == "") ≡ false
      → (s.session_id == "") ≡ false
      → s.connections.locked ≡ false
      → Returns (IsOver s.user_id s.session_id s.shut) (forget s)
  unfolding forget remove_connection IsForgotten IsOver
  forget-shut s named known free = ground (
    arith,
    listed-drop s.user_id s.session_id s.user_id s.session_id s.connections.user_sessions,
    eq_refl s.user_id,
    eq_refl s.session_id,
  )

  fail-IsOver :
      (user id : String) (shut : Bool)
      → (user == "") ≡ false
      → (id == "") ≡ false
      → Triple (IsOver user id shut) fail (IsOver user id shut)
  unfolding fail forget remove_connection IsOver IsForgotten
  fail-IsOver user id shut named known = record {
    at = λ s h. ground (
      arith,
      h,
      listed-drop s.user_id s.session_id s.user_id s.session_id s.connections.user_sessions,
      eq_refl s.user_id,
      eq_refl s.session_id,
    );
  }

  do_close-IsOver :
      (error : Option Error) (s : HttpSession Srv)
      → (s.user_id == "") ≡ false
      → (s.session_id == "") ≡ false
      → s.connections.locked ≡ false
      → Returns (IsOver s.user_id s.session_id (shut_after error s.shut)) (do_close error s)
  unfolding do_close IsOver
  do_close-IsOver none s named known free =
      continue-Returns (forget s) _ (forget-shut s named known free)
        (λ a. record { at = λ t h. (h.0, refl) })
  do_close-IsOver (some eof) s named known free =
      continue-Returns (forget s) _ (forget-shut s named known free) (λ a. record { at = λ t h. h })
  do_close-IsOver (some end_of_stream) s named known free =
      continue-Returns (forget s) _ (forget-shut s named known free)
        (λ a. fail-IsOver s.user_id s.session_id s.shut named known)
  do_close-IsOver (some (other_error m)) s named known free =
      continue-Returns (forget s) _ (forget-shut s named known free)
        (λ a. fail-IsOver s.user_id s.session_id s.shut named known)

  -- do_close, called with the connection manager's mutex free on a session that has a user and an
  -- id, returns with the mutex free, whatever error the shutdown of the socket gives; afterwards
  -- the manager does not list the session's id for the user any more, and the socket is shut if
  -- the shutdown gave no error, and else as it was.
  pub do_close_lem :
      (error : Option Error) (s : HttpSession Srv)
      → (s.user_id == "") ≡ false
      → (s.session_id == "") ≡ false
      → s.connections.locked ≡ false
      → Returns
          (λ t.
            (listed s.user_id s.session_id t.connections.user_sessions ≡ false)
            × (t.connections.locked ≡ false)
            × (t.shut ≡ shut_after error s.shut))
          (do_close error s)
  unfolding IsForgotten IsOver
  do_close_lem error s named known free =
      Returns-weaken (IsOver s.user_id s.session_id (shut_after error s.shut)) _ (do_close error s)
        (λ t h. (h.0.0, h.0.1, h.1)) (do_close-IsOver error s named known free)
