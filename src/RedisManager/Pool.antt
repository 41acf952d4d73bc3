-- ===== src/RedisManager/Pool.antt =====
-- The connection pool of Services/utils/redis_manager.cpp: what each command keeps.
use qt_web_server_chat.Base.{
  ℕ, ◌≤◌, ◌≡◌, String, true, false, Option, List, [], ◌∷◌, arith, length, Returns, done,
}
use qt_web_server_chat.RedisManager.{Reply, Hiredis, RedisManager, is_pong, request}

-- Neither mutex is held, and the pool is within its size.
pub record IsReady {Net : Type 0} (s : RedisManager Net) : Type 0 where
  pub free : s.locked ≡ false
  pub pool_free : s.pool_locked ≡ false
  pub within : length s.connection_pool ≤ s.pool_size

module _ {Net A : Type 0} (hiredis : Hiredis Net) where
  -- A command, called with both mutexes free and the pool within its size, returns; it leaves both
  -- mutexes free and the pool within its size, whatever the server answers.
  pub request-IsReady :
      (failed : A) (read : Option Reply → A) (args : List String) (s : RedisManager Net)
      → IsReady s
      → Returns IsReady (request hiredis failed read args s)
  unfolding request
  request-IsReady failed read args s r = ground arith

  -- If the last connection of the pool answers PING with PONG, a command uses it and puts it back:
  -- the result is what is read from the server's reply, and the manager differs from before in the
  -- network alone.
  pub request-reuses :
      (failed : A) (read : Option Reply → A) (args : List String) (s : RedisManager Net) (ctx : ℕ)
      (rest : List ℕ)
      → IsReady s
      → s.connection_pool ≡ ctx ∷ rest
      → is_pong (hiredis.command ctx ("PING" ∷ []) s.net).0 ≡ true
      → let ping = hiredis.command ctx ("PING" ∷ []) s.net in
        let answer = hiredis.command ctx args ping.1 in
        request hiredis failed read args s ≡ done (read answer.0) (record s { net = answer.1 })
  unfolding request
  request-reuses failed read args s ctx rest r pool pong = ground arith
