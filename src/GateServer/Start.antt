-- ===== src/GateServer/Start.antt =====
-- The start of the gate server, as Services/GateServer/main.cpp does it, when Redis cannot be reached.
use qt_web_server_chat.Base.{
  ℕ, ◌≡◌, String, true, false, Option, some, [], ◌∷◌, arith, done, blocked,
}
use qt_web_server_chat.DatabaseManager.{Mysql, DatabaseManager, connect}
use qt_web_server_chat.RedisManager.{Hiredis}
use qt_web_server_chat.RedisManager.Start.{all_connect, initialize_deadlocks}
use qt_web_server_chat.Listener.{Acceptor}
use qt_web_server_chat.GateServer.{GateServer, register, start_connected, start, main}

module _ {Srv Net Acc : Type 0} (mysql : Mysql Srv) (hiredis : Hiredis Net)
    (acceptor : Acceptor Acc) where
  -- main, with an address that can be read, the database connected, and Redis's manager not yet
  -- initialised, with its pool empty and its mutex free: if one of the ten connections to Redis
  -- cannot be made, main does not go on without Redis; it waits forever.
  pub main_deadlocks :
      (make_address : String → Option String) (atoi : String → ℕ) (host port address : String)
      (s : GateServer Srv Net Acc) (d : DatabaseManager Srv)
      → make_address host ≡ some address
      → connect mysql (register s).database ≡ done true d
      → s.redis.locked ≡ false
      → s.redis.initialized ≡ false
      → s.redis.connection_pool ≡ []
      → all_connect hiredis "localhost" 6379 10 s.redis.net ≡ false
      → main mysql hiredis acceptor make_address atoi (host ∷ port ∷ []) s ≡ blocked
  unfolding main start start_connected register
  main_deadlocks make_address atoi host port address s d readable connected free new empty bad =
      let never = initialize_deadlocks hiredis "localhost" 6379 10 s.redis free new empty bad in
      ground arith
