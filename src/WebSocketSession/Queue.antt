-- ===== src/WebSocketSession/Queue.antt =====
-- The queue of Services/GateServer/websocket_session.cpp: send_message and the handler of a write
-- call do_write while they hold the mutex that do_write takes.
use qt_web_server_chat.Base.{
  ◌≡◌, String, true, false, List, [], ◌∷◌, arith, ◌++◌, done, blocked, ◌>>◌,
}
use qt_web_server_chat.WebSocketSession.{
  WebSocketSession, take_front, do_write, send_message, on_written, async_write,
}

module _ {Net : Type 0} where
  -- send_message on a session that is not writing, with the queue's mutex free, never returns: it
  -- waits for the mutex that it holds itself.
  pub send_message_deadlocks :
      (message : String) (s : WebSocketSession Net)
      → s.locked ≡ false
      → s.is_writing ≡ false
      → send_message message s ≡ blocked
  unfolding send_message do_write
  send_message_deadlocks message s free idle = ground arith

  -- When a write is done and further messages wait, with the queue's mutex free, the handler never
  -- returns: it waits for the mutex that it holds itself.
  pub on_written_deadlocks :
      (s : WebSocketSession Net) (m : String) (rest : List String)
      → s.locked ≡ false
      → s.message_queue ≡ m ∷ rest
      → on_written s ≡ blocked
  unfolding on_written do_write
  on_written_deadlocks s m rest free waiting = ground arith

  -- Called without the mutex, do_write begins to write the message at the front of the queue and
  -- takes it from the queue, with the mutex free; messages that were sent meanwhile, while the session is writing,
  -- stand behind the others.
  pub do_write-send_message :
      (message m : String) (rest : List String) (s : WebSocketSession Net)
      → s.locked ≡ false
      → s.is_writing ≡ true
      → s.message_queue ≡ m ∷ rest
      → (send_message message >> do_write) s
        ≡ done tt (record s { message_queue = rest ++ message ∷ []; written = m ∷ s.written })
  unfolding send_message do_write take_front async_write
  do_write-send_message message m rest s free busy waiting = ground arith
