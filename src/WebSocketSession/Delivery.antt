-- ===== src/WebSocketSession/Delivery.antt =====
-- What a session of Services/GateServer/websocket_session.cpp does with a text for another user.
use qt_web_server_chat.Base.{
  ℕ, ◌≡◌, refl, ap, ◌∙◌, String, Bool, true, false, ◌&&◌, Option, none, some, [], ◌∷◌, ◌++◌,
  if◌then◌else◌, ℤ, pos, to_string, stoi, Outcome, done, blocked, Exec, pure, try_catch,
  Option-cases, inl, inr, arith, typed_text, quoted, plain,
}
use qt_web_server_chat.DatabaseManager.{Mysql, DatabaseManager}
use qt_web_server_chat.DatabaseManager.Messages.{store_message}
use qt_web_server_chat.WebSocketManager.{get_session}
use qt_web_server_chat.WebSocketSession.{WebSocketSession, send_message, do_write}
use qt_web_server_chat.WebSocketSession.Messages.{
  Json, Conversation, word, string_field, echo_message, forward_message, reply, forward, session_at,
  put_session, tell, store_and_forward, on_text, on_type, on_value, handle_text_message,
}

-- The text that the receiver of a message is to get.
abbrev pub envelope : String → String → ℕ → String
envelope sender content time = typed_text "text_message" (
    ("sender_id", quoted sender)
    ∷ ("content", quoted content)
    ∷ ("timestamp", plain (to_string (pos time)))
    ∷ [])

forward_message-envelope :
    (sender content : String) (time : ℕ)
    → forward_message sender content time ≡ envelope sender content time
forward_message-envelope sender content time = refl

module _ {Net : Type 0} where
  abbrev queued : String → WebSocketSession Net → WebSocketSession Net
  queued text t = record t { message_queue = t.message_queue ++ text ∷ [] }

  send_message_lem :
      (text : String) (t : WebSocketSession Net)
      → t.locked ≡ false
      → send_message text t ≡ (if t.is_writing then done tt (queued text t) else blocked)
  unfolding send_message do_write
  send_message_lem text t free = ground arith

module _ {Net Srv : Type 0} where
  -- What becomes of a text for a receiver: nothing if it was not stored or the receiver has no
  -- session. Else the text stands last in the queue of the receiver's session, if that is writing,
  -- and the thread waits forever if it is not.
  abbrev pub delivery : Bool → Option ℕ → String → Exec (Conversation Net Srv) (Unit {0})
  delivery true (some n) text s = elim (session_at n s.others) [
    | none ↦
        if s.session.is_writing
        then done tt (record s { session = queued text s.session })
        else blocked
    | some t ↦
        if t.is_writing
        then done tt (record s { others = put_session n (queued text t) s.others })
        else blocked
  ]
  delivery _ receiver text s = done tt s

  -- The thread holds the mutex of no session.
  pub record IsFree (s : Conversation Net Srv) : Type 0 where
    pub own : s.session.locked ≡ false
    pub other :
        (n : ℕ) (t : WebSocketSession Net) → session_at n s.others ≡ some t → t.locked ≡ false

  tell_lem :
      (n : ℕ) (text : String) (s : Conversation Net Srv)
      → IsFree s
      → tell n text s ≡ delivery true (some n) text s
  unfolding tell reply
  tell_lem n text s w = elim (Option-cases (session_at n s.others)) [
    | inl e ↦ rw (e, tell, send_message_lem text s.session w.own) (ground arith)
    | inr (t, e) ↦ rw (e, tell, send_message_lem text t (w.other n t e)) (ground arith)
  ]

  -- No exception gets out of a delivery.
  delivery_settles :
      (stored : Bool) (receiver : Option ℕ) (text : String)
      (handler : Exec (Conversation Net Srv) (Unit {0})) (s : Conversation Net Srv)
      → try_catch (λ t. delivery stored receiver text s) handler s ≡ delivery stored receiver text s
  delivery_settles true (some n) text handler s = ground arith
  delivery_settles true none text handler s = refl
  delivery_settles false receiver text handler s = refl

module _ {Net Srv V : Type 0} (mysql : Mysql Srv) (json : Json V) (time : ℕ) where
  stored_lem :
      (receiver_id content : String) (receiver sender : ℤ) (stored : Bool)
      (db : DatabaseManager Srv) (s : Conversation Net Srv)
      → stoi receiver_id ≡ some receiver
      → stoi s.session.user_id ≡ some sender
      → store_message mysql (word sender) (word receiver) content s.db ≡ done stored db
      → store_and_forward mysql json time receiver_id content s ≡ (
          if stored
          then forward mysql json time receiver_id content (record s { db = db })
          else done tt (record s { db = db }))
  unfolding store_and_forward
  stored_lem receiver_id content receiver sender false db s e f g =
      simp (e, f, g, store_and_forward)
  stored_lem receiver_id content receiver sender true db s e f g = simp (e, f, g, store_and_forward)

  forward_lem :
      (receiver_id content : String) (s : Conversation Net Srv)
      → IsFree s
      → forward mysql json time receiver_id content s
        ≡ delivery true
            (get_session s.session.sessions receiver_id)
            (envelope s.session.user_id content time)
            s
  unfolding forward
  forward_lem receiver_id content s w =
      elim (Option-cases (get_session s.session.sessions receiver_id)) [
        | inl e ↦ rw (e, forward) refl
        | inr (n, e) ↦
            rw (e, forward)
              (tell_lem n (forward_message s.session.user_id content time) s w
                ∙ ap (λ text. delivery true (some n) text s)
                    (forward_message-envelope s.session.user_id content time))
      ]

  stored-delivery :
      (receiver_id content : String) (receiver sender : ℤ) (stored : Bool)
      (db : DatabaseManager Srv) (s : Conversation Net Srv)
      → IsFree s
      → stoi receiver_id ≡ some receiver
      → stoi s.session.user_id ≡ some sender
      → store_message mysql (word sender) (word receiver) content s.db ≡ done stored db
      → try_catch (store_and_forward mysql json time receiver_id content) (pure tt) s
        ≡ delivery stored
            (get_session s.session.sessions receiver_id)
            (envelope s.session.user_id content time)
            (record s { db = db })
  stored-delivery receiver_id content receiver sender false db s w e f g =
      rw (stored_lem receiver_id content receiver sender false db s e f g, try_catch) refl
  stored-delivery receiver_id content receiver sender true db s w e f g =
      ap (λ (r : Outcome (Conversation Net Srv) (Unit {0})). try_catch (λ t. r) (pure tt) s)
        (stored_lem receiver_id content receiver sender true db s e f g
          ∙ forward_lem receiver_id content (record s { db = db })
              (record { own = w.own; other = w.other }))
      ∙ delivery_settles true (get_session s.session.sessions receiver_id)
          (envelope s.session.user_id content time) (pure tt) (record s { db = db })

  -- A text message with a content and a receiver, whose ids are numbers, read by a thread that holds
  -- no session's mutex, is stored; if the database has stored it and the receiver has a session,
  -- then, if that session is writing, the JSON text with the sender's id, the content and the time
  -- stands last in its queue; if it is not writing, the thread waits forever. If it was not stored
  -- or the receiver has no session, nothing else changes but the database manager.
  pub handle_text_message-delivery :
      (message : String) (jv : V) (receiver_id content : String) (receiver sender : ℤ)
      (stored : Bool) (db : DatabaseManager Srv) (s : Conversation Net Srv)
      → IsFree s
      → json.parse message ≡ some jv
      → json.is_object jv && json.contains jv "type" ≡ true
      → string_field json jv "type" ≡ some "text_message"
      → json.contains jv "content" && json.contains jv "receiver_id" ≡ true
      → string_field json jv "content" ≡ some content
      → string_field json jv "receiver_id" ≡ some receiver_id
      → stoi receiver_id ≡ some receiver
      → stoi s.session.user_id ≡ some sender
      → store_message mysql (word sender) (word receiver) content s.db ≡ done stored db
      → handle_text_message mysql json time message s
        ≡ delivery stored
            (get_session s.session.sessions receiver_id)
            (envelope s.session.user_id content time)
            (record s { db = db })
  unfolding handle_text_message on_value on_type on_text
  handle_text_message-delivery message jv receiver_id content receiver sender stored db s w a b c d
        e f g h i =
      simp (a, b, c, d, e, f, handle_text_message, on_value, on_type, on_text)
        (ap
            (λ (r : Outcome (Conversation Net Srv) (Unit {0})).
              try_catch (λ t. r) (reply (echo_message message)) s)
            (stored-delivery receiver_id content receiver sender stored db s w g h i)
          ∙ delivery_settles stored (get_session s.session.sessions receiver_id)
              (envelope s.session.user_id content time) (reply (echo_message message))
              (record s { db = db }))
