-- ===== src/WebSocketSession.antt =====
-- Services/GateServer/websocket_session.{h,cpp}: the queue of outgoing messages, the heartbeat's test
-- and the end of a session. A session sees the program's managers, and `written` lists the messages
-- whose `async_write` has begun, the last one first. The call of the status server, `rpc`, is a
-- parameter. `locked` is the calling thread's hold of `queue_mutex_`. Times are steady-clock
-- nanoseconds.
pub mod Queue
pub mod End
pub mod Messages
pub mod Heartbeat
pub mod Silence
pub mod Delivery
mod MessageTests
mod Tests
use Prim.Native.String.{◌++◌}
use qt_web_server_chat.Base.{
  ℕ, ◌*◌, ◌-◌, ◌/◌, String, Bool, true, false, Option, none, some, List, [], ◌∷◌, ltb, ◌==◌,
  if◌then◌else◌, ℤ, pos, to_string, stoi, Outcome, done, thrown, blocked, Exec, pure, throw,
  try_catch, with_lock, ◌>>=◌, ◌>>◌,
}
use mathlib.Core.List
use qt_web_server_chat.RedisManager.{Hiredis, RedisManager, hset}
use qt_web_server_chat.StatusClientManager.{Client, StatusClientManager, release_client}
use qt_web_server_chat.StatusService.{UserStatus, offline, status_text}
use qt_web_server_chat.WebSocketManager.{WebSocketManager, remove_session}

-- HEARTBEAT_INTERVAL
abbrev pub heartbeat_interval : ℕ
heartbeat_interval = 30

-- The head of `message_queue` is its front; `status_client` is `none` for a null pointer.
pub record WebSocketSession (Net : Type 0) : Type 0 where
  pub user_id : String
  pub session_id : String
  pub message_queue : List String
  pub is_writing : Bool
  pub written : List String
  pub last_heartbeat : ℕ
  pub status_client : Option Client
  pub client_acquired : Bool
  pub locked : Bool
  pub redis : RedisManager Net
  pub sessions : WebSocketManager
  pub clients : StatusClientManager

module _ {Net : Type 0} where
  abbrev pub locking : {A : Type 0} → Exec (WebSocketSession Net) A → Exec (WebSocketSession Net) A
  locking = with_lock (λ s. s.locked) (λ b s. record s { locked = b })

  abbrev pub on_redis : {A : Type 0} → Exec (RedisManager Net) A → Exec (WebSocketSession Net) A
  on_redis m s = elim (m s.redis) [
    | done a t ↦ done a (record s { redis = t })
    | thrown t ↦ thrown (record s { redis = t })
    | blocked ↦ blocked
  ]

  abbrev pub on_clients : {A : Type 0} → Exec StatusClientManager A → Exec (WebSocketSession Net) A
  on_clients m s = elim (m s.clients) [
    | done a t ↦ done a (record s { clients = t })
    | thrown t ↦ thrown (record s { clients = t })
    | blocked ↦ blocked
  ]

  -- `ws_.async_write`
  unfoldable pub async_write : String → Exec (WebSocketSession Net) (Unit {0})
  async_write m s = pure tt (record s { written = m ∷ s.written })

  -- What do_write does while it holds the mutex: the front of the queue, if there is one.
  unfoldable pub take_front : Exec (WebSocketSession Net) (Option String)
  take_front s = elim s.message_queue [
    | [] ↦ pure none (record s { is_writing = false })
    | m ∷ rest ↦ pure (some m) (record s { message_queue = rest })
  ]

  unfoldable pub do_write : Exec (WebSocketSession Net) (Unit {0})
  unfolding take_front async_write
  do_write = locking take_front >>= λ front. elim front [ none ↦ pure tt | some m ↦ async_write m ]

  unfoldable pub send_message : String → Exec (WebSocketSession Net) (Unit {0})
  unfolding do_write
  send_message message = locking λ s.
      let queue = List.◌++◌ s.message_queue (message ∷ []) in
      if s.is_writing
      then pure tt (record s { message_queue = queue })
      else do_write (record s { message_queue = queue; is_writing = true })

  -- The handler of a write that succeeded.
  unfoldable pub on_written : Exec (WebSocketSession Net) (Unit {0})
  unfolding do_write
  on_written = locking λ s. elim s.message_queue [
    | [] ↦ pure tt (record s { is_writing = false })
    | m ∷ rest ↦ do_write s
  ]

  unfoldable pub is_alive : ℕ → WebSocketSession Net → Bool
  is_alive now s = ltb ((now - s.last_heartbeat) / 1000000000) (heartbeat_interval * 3)

  -- The end of the status client in fail.
  unfoldable pub give_back : Exec (WebSocketSession Net) (Unit {0})
  unfolding release_client
  give_back s = elim s.status_client [
    | none ↦ pure tt s
    | some c ↦
        if s.client_acquired
        then (on_clients (release_client (some c)) >> λ t.
              pure tt (record t { status_client = none; client_acquired = false }))
            s
        else pure tt s
  ]

module _ {Net : Type 0} (hiredis : Hiredis Net)
    (rpc : Client → ℤ → UserStatus → String → Net → Bool × Net) where
  unfoldable pub call_rpc : Client → ℤ → UserStatus → String → Exec (RedisManager Net) Bool
  call_rpc c user_id st session_id r =
      let (good, net') = rpc c user_id st session_id r.net in pure good (record r { net = net' })

  -- The writes to the cache after the status server's answer.
  unfoldable pub cache_status : ℕ → String → UserStatus → Bool → Exec (RedisManager Net) (Unit {0})
  unfolding hset status_text
  cache_status time user_id st false = pure tt
  cache_status time user_id st true =
      hset hiredis ("user:status:" ++ user_id) "status" (status_text st)
      >> (hset hiredis ("user:status:" ++ user_id) "last_updated" (to_string (pos time)) >> pure tt)

  -- The `try` block of updateUserStatus; std::stoi throws for a user id that is no number.
  unfoldable pub report_status :
      ℕ → Client → String → String → UserStatus → Exec (RedisManager Net) (Unit {0})
  unfolding call_rpc cache_status
  report_status time c user_id session_id st = elim (stoi user_id) [
    | none ↦ throw
    | some id ↦ (call_rpc c id st session_id >>= cache_status time user_id st)
  ]

  -- `time` is std::time's.
  unfoldable pub update_user_status : ℕ → UserStatus → Exec (WebSocketSession Net) (Unit {0})
  unfolding report_status
  update_user_status time st s = elim s.status_client [
    | none ↦ pure tt s
    | some c ↦
        if s.user_id == ""
        then pure tt s
        else on_redis (try_catch (report_status time c s.user_id s.session_id st) (pure tt)) s
  ]

  -- The session is taken from the manager, if it has a user.
  unfoldable pub unregister : ℕ → Exec (WebSocketSession Net) (Unit {0})
  unfolding update_user_status remove_session
  unregister time s =
      if s.user_id == ""
      then pure tt s
      else (update_user_status time offline >> λ t.
            pure tt (record t { sessions = remove_session t.sessions t.user_id }))
          s

  -- Both branches, for the end of the stream and for another error, do the same.
  unfoldable pub fail : ℕ → Exec (WebSocketSession Net) (Unit {0})
  unfolding unregister give_back
  fail time = unregister time >> give_back
