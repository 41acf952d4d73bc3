-- ===== src/WebSocketSession/Silence.antt =====
-- The messages that a session of Services/GateServer/websocket_session.cpp means to answer at once.
use qt_web_server_chat.Base.{
  ℕ, ◌≡◌, refl, String, Bool, true, false, ◌&&◌, ◌⊎◌, not, Option, none, some, arith, ◌==◌,
  if◌then◌else◌, Outcome, thrown, blocked, try_catch, Option-cases, Bool-cases, inl, inr,
}
use qt_web_server_chat.DatabaseManager.{Mysql}
use qt_web_server_chat.WebSocketSession.Queue.{send_message_deadlocks}
use qt_web_server_chat.WebSocketSession.Messages.{
  Json, Conversation, string_field, echo_message, login_response, heartbeat_response, reply,
  on_type, on_value, handle_text_message,
}

-- The messages that neither store a text nor search: those that are no object with a type, and the
-- types but two.
abbrev pub other_type : Option String → Bool
other_type none = true
other_type (some type) = not (type == "text_message") && not (type == "search_user")

abbrev pub other_value : {V : Type 0} → Json V → Option V → Bool
other_value json none = true
other_value json (some jv) =
    if json.is_object jv && json.contains jv "type"
    then other_type (string_field json jv "type")
    else true

module _ {Net Srv V : Type 0} (mysql : Mysql Srv) (json : Json V) (time : ℕ) where
  reply_deadlocks :
      (message : String) (s : Conversation Net Srv)
      → s.session.locked ≡ false
      → s.session.is_writing ≡ false
      → reply message s ≡ blocked
  unfolding reply
  reply_deadlocks message s free idle = rw (send_message_deadlocks message s.session free idle) refl

  on_type_deadlocks :
      (message type : String) (jv : V) (s : Conversation Net Srv)
      → s.session.locked ≡ false
      → s.session.is_writing ≡ false
      → other_type (some type) ≡ true
      → on_type mysql json time message type jv s ≡ blocked
  unfolding on_type
  on_type_deadlocks message type jv s free idle other = ground (
    arith,
    reply_deadlocks (login_response s.session.user_id) s free idle,
    reply_deadlocks (heartbeat_response time) s free idle,
    reply_deadlocks (echo_message message) s free idle,
  )

  -- A message of no such type ends in a thread that waits, or in the exception whose handler does.
  abbrev IsStuck : Outcome (Conversation Net Srv) (Unit {0}) → Type 0
  IsStuck r =
      (r ≡ blocked)
      ⊎ ((t : Conversation Net Srv) × (r ≡ thrown t)
          × (t.session.locked ≡ false)
          × (t.session.is_writing ≡ false))

  on_value-IsStuck :
      (message : String) (jv : V) (s : Conversation Net Srv)
      → s.session.locked ≡ false
      → s.session.is_writing ≡ false
      → other_value json (some jv) ≡ true
      → IsStuck (on_value mysql json time message jv s)
  unfolding on_value
  on_value-IsStuck message jv s free idle other =
      elim (Bool-cases (json.is_object jv && json.contains jv "type")) [
        | inr e ↦ inl (rw (e, on_value) (reply_deadlocks (echo_message message) s free idle))
        | inl e ↦ elim (Option-cases (string_field json jv "type")) [
          | inl f ↦ inr (s, simp (e, f, on_value), free, idle)
          | inr (type, f) ↦ inl (
              simp (e, f, on_value)
                (on_type_deadlocks message type jv s free idle (ground (arith, other, e, f))))
        ]
      ]

  caught_deadlocks :
      (message : String) (r : Outcome (Conversation Net Srv) (Unit {0})) (s : Conversation Net Srv)
      → IsStuck r
      → try_catch (λ x. r) (reply (echo_message message)) s ≡ blocked
  caught_deadlocks message r s (inl e) = rw e refl
  caught_deadlocks message r s (inr (t, e, free, idle)) =
      rw e (reply_deadlocks (echo_message message) t free idle)

  -- A session that is not writing, with the queue's mutex free, never comes back from
  -- handle_text_message if the message is not JSON, is no object with a type, or has any type but
  -- text_message and search_user, a type that is no string included: each of these is answered, and
  -- the answer waits for a mutex that its own thread holds. So the session reads nothing more.
  pub handle_text_message_deadlocks :
      (message : String) (s : Conversation Net Srv)
      → s.session.locked ≡ false
      → s.session.is_writing ≡ false
      → other_value json (json.parse message) ≡ true
      → handle_text_message mysql json time message s ≡ blocked
  unfolding handle_text_message
  handle_text_message_deadlocks message s free idle other =
      elim (Option-cases (json.parse message)) [
        | inl e ↦ simp (e, handle_text_message) (reply_deadlocks (echo_message message) s free idle)
        | inr (jv, e) ↦
            simp (e, handle_text_message)
              (caught_deadlocks message (on_value mysql json time message jv s) s
                (on_value-IsStuck message jv s free idle (ground (arith, other, e))))
      ]
