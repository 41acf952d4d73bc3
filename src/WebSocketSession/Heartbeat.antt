-- ===== src/WebSocketSession/Heartbeat.antt =====
-- The construction of a session of Services/GateServer/websocket_session.cpp, its heartbeat, and the
-- handlers of its asynchronous calls.
use qt_web_server_chat.Base.{
  ℕ, suc, String, Bool, true, false, not, Option, none, some, [], ◌==◌, if◌then◌else◌, ℤ, Exec,
  pure, ◌>>=◌, ◌>>◌,
}
use qt_web_server_chat.DatabaseManager.{Mysql}
use qt_web_server_chat.RedisManager.{Hiredis, initialize}
use qt_web_server_chat.StatusClientManager.{Client, acquire_client}
use qt_web_server_chat.StatusService.{UserStatus, online, offline}
use qt_web_server_chat.WebSocketSession.{
  WebSocketSession, on_redis, on_clients, is_alive, update_user_status, fail,
}
use qt_web_server_chat.WebSocketSession.Messages.{
  Json, Conversation, heartbeat_message, on_session, reply, do_read, on_message,
}

module _ {Net Srv V : Type 0} (mysql : Mysql Srv) (json : Json V) (hiredis : Hiredis Net)
    (rpc : Client → ℤ → UserStatus → String → Net → Bool × Net) (time now : ℕ) where
  unfoldable pub start_heartbeat : Exec (Conversation Net Srv) (Unit {0})
  start_heartbeat s = pure tt (record s { timers = suc s.timers })

  -- The handler of the timer; the flag says that it was cancelled or has failed.
  unfoldable pub on_timer : Bool → Exec (Conversation Net Srv) (Unit {0})
  unfolding is_alive fail update_user_status start_heartbeat reply
  on_timer true s = pure tt s
  on_timer false s =
      if not (is_alive now s.session)
      then on_session (update_user_status hiredis rpc time offline >> fail hiredis rpc time) s
      else (reply (heartbeat_message time) >> start_heartbeat) s

  unfoldable pub handle_heartbeat : Bool → Exec (Conversation Net Srv) (Unit {0})
  handle_heartbeat true s = pure tt s
  handle_heartbeat false s =
      pure tt (record s { session = record s.session { last_heartbeat = now } })

  -- The handler of a read, which may have failed.
  unfoldable pub on_read_done : Option String → Exec (Conversation Net Srv) (Unit {0})
  unfolding on_message fail
  on_read_done none s = on_session (fail hiredis rpc time) s
  on_read_done (some message) s =
      on_message mysql json time
        (record s { buffer = message; session = record s.session { last_heartbeat = now } })

  -- The handler of the accepted handshake, which may have failed, with what the HTTP session had read already.
  unfoldable pub on_accepted : Option String → Exec (Conversation Net Srv) (Unit {0})
  unfolding start_heartbeat on_message do_read fail
  on_accepted none = on_session (fail hiredis rpc time)
  on_accepted (some early) =
      start_heartbeat
      >> (λ s. pure tt (record s { buffer = early; posted = suc s.posted }))
      >> (if early == "" then do_read mysql json time else on_message mysql json time)

  -- The task that on_accepted posts.
  unfoldable pub report_online : Exec (Conversation Net Srv) (Unit {0})
  unfolding update_user_status
  report_online = on_session (update_user_status hiredis rpc time online)

module _ {Net : Type 0} (hiredis : Hiredis Net) where
  -- The constructor, on the managers that `s` holds.
  unfoldable pub construct : ℕ → Exec (WebSocketSession Net) Bool
  unfolding initialize acquire_client
  construct now s =
      let fresh = record s {
        user_id = "";
        session_id = "";
        message_queue = [];
        is_writing = false;
        last_heartbeat = now;
      } in
      ((if s.clients.initialized
            then (on_clients acquire_client >>= λ c t.
                pure tt (record t { status_client = some c; client_acquired = true }))
            else (λ t.
                pure tt
                  (record t { status_client = some "localhost:50051"; client_acquired = false })))
          >> on_redis (initialize hiredis "localhost" 6379 5))
        fresh
