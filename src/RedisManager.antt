-- ===== src/RedisManager.antt =====
-- Services/utils/redis_manager.{h,cpp}. hiredis is a parameter: its functions on the state `Net` of
-- the server and the network. The manager's two mutexes are `locked` (`mutex_`) and `pool_locked`
-- (`poolMutex_`); they say whether the calling thread holds them.
pub mod Pool
pub mod Start
pub mod Subscribe
mod Tests
use qt_web_server_chat.Base.{
  ℕ, zero, suc, String, Bool, true, false, ◌&&◌, Option, none, some, List, [], ◌∷◌, leb, ◌==◌,
  if◌then◌else◌, length, Dict, insert, Exec, pure, with_lock, ◌>>=◌, ◌>>◌,
}

-- A `redisReply` by its type. An element of an array is its text if its type is
-- REDIS_REPLY_STRING, and `none` otherwise.
pub data Reply : Type 0 where
  status string : String → Reply
  integer : ℕ → Reply
  array : List (Option String) → Reply
  other : Reply

-- hiredis: `none` is a null pointer, and the flag of a new context is its `err` field.
pub record Hiredis (Net : Type 0) : Type 0 where
  pub connect_with_timeout : String → ℕ → Net → Option (ℕ × Bool) × Net
  pub free : ℕ → Net → Net
  pub command : ℕ → List String → Net → Option Reply × Net

-- The head of `connection_pool` is the back of the vector.
pub record RedisManager (Net : Type 0) : Type 0 where
  pub net : Net
  pub connection_pool : List ℕ
  pub host : String
  pub port : ℕ
  pub pool_size : ℕ
  pub initialized : Bool
  pub locked : Bool
  pub pool_locked : Bool

-- The test `reply && reply->type == …` and the value that is read from the reply.
abbrev pub is_status : Option Reply → Bool
is_status (some (status s)) = true
is_status r = false

abbrev pub is_pong : Option Reply → Bool
is_pong (some (status s)) = s == "PONG"
is_pong r = false

abbrev pub is_integer : Option Reply → Bool
is_integer (some (integer n)) = true
is_integer r = false

abbrev pub is_integer_or_status : Option Reply → Bool
is_integer_or_status (some (integer n)) = true
is_integer_or_status (some (status s)) = true
is_integer_or_status r = false

abbrev pub string_of : Option Reply → Option String
string_of (some (string s)) = some s
string_of r = none

abbrev pub integer_of : Option Reply → Option ℕ
integer_of (some (integer n)) = some n
integer_of r = none

-- The loop of hgetall, two elements at a time; an odd number of elements gives `none`.
unfoldable pub fields_of : List (Option String) → Dict String → Option (Dict String)
fields_of [] result = some result
fields_of (f ∷ []) result = none
fields_of (some field ∷ some value ∷ rest) result = fields_of rest (insert field value result)
fields_of (some field ∷ none ∷ rest) result = fields_of rest result
fields_of (none ∷ v ∷ rest) result = fields_of rest result

abbrev pub fields_of_reply : Option Reply → Option (Dict String)
fields_of_reply (some (array elements)) = fields_of elements []
fields_of_reply r = none

-- The loop of zrange.
unfoldable pub strings_of : List (Option String) → List String
strings_of [] = []
strings_of (some s ∷ rest) = s ∷ strings_of rest
strings_of (none ∷ rest) = strings_of rest

abbrev pub strings_of_reply : Option Reply → Option (List String)
strings_of_reply (some (array elements)) = some (strings_of elements)
strings_of_reply r = none

-- `connectionPool_[0]`, if there is one.
unfoldable pub front : List ℕ → Option ℕ
front [] = none
front (ctx ∷ []) = some ctx
front (ctx ∷ next ∷ rest) = front (next ∷ rest)

module _ {Net : Type 0} where
  abbrev pub locking : {A : Type 0} → Exec (RedisManager Net) A → Exec (RedisManager Net) A
  locking = with_lock (λ s. s.locked) (λ b s. record s { locked = b })

  abbrev pub pool_locking : {A : Type 0} → Exec (RedisManager Net) A → Exec (RedisManager Net) A
  pool_locking = with_lock (λ s. s.pool_locked) (λ b s. record s { pool_locked = b })

  unfoldable pub push_back : ℕ → Exec (RedisManager Net) (Unit {0})
  push_back ctx s = pure tt (record s { connection_pool = ctx ∷ s.connection_pool })

module _ {Net : Type 0} (hiredis : Hiredis Net) where
  open hiredis use {connect_with_timeout, free, command}

  unfoldable pub redis_free : ℕ → Exec (RedisManager Net) (Unit {0})
  redis_free ctx s = pure tt (record s { net = free ctx s.net })

  unfoldable pub redis_command : ℕ → List String → Exec (RedisManager Net) (Option Reply)
  redis_command ctx args s =
      let (reply, net') = command ctx args s.net in pure reply (record s { net = net' })

  -- A context with an error is freed.
  unfoldable pub checked : Option (ℕ × Bool) → Exec (RedisManager Net) (Option ℕ)
  unfolding redis_free
  checked none = pure none
  checked (some (ctx, true)) = redis_free ctx >> pure none
  checked (some (ctx, false)) = pure (some ctx)

  unfoldable pub create_connection : String → ℕ → Exec (RedisManager Net) (Option ℕ)
  unfolding checked
  create_connection host port s =
      let (ctx, net') = connect_with_timeout host port s.net in
      checked ctx (record s { net = net' })

  -- The loop of disconnect, which starts at the front of the vector.
  unfoldable pub free_all : List ℕ → Net → Net
  free_all [] n = n
  free_all (ctx ∷ rest) n = free ctx (free_all rest n)

  unfoldable pub disconnect : Exec (RedisManager Net) (Unit {0})
  disconnect = locking λ s. pure tt (record s {
    net = free_all s.connection_pool s.net;
    connection_pool = [];
    initialized = false;
  })

  -- The loop of initialize, by the connections that are left to make.
  unfoldable pub fill : String → ℕ → ℕ → Exec (RedisManager Net) Bool
  unfolding create_connection push_back disconnect
  fill host port zero = λ s. pure true (record s { initialized = true })
  fill host port (suc n) = create_connection host port >>= λ ctx. elim ctx [
    | none ↦ (disconnect >> pure false)
    | some c ↦ (push_back c >> fill host port n)
  ]

  unfoldable pub initialize : String → ℕ → ℕ → Exec (RedisManager Net) Bool
  unfolding fill
  initialize host port pool_size = locking λ s.
      if s.initialized
      then pure true s
      else fill host port pool_size (record s { host = host; port = port; pool_size = pool_size })

  unfoldable pub is_connection_valid : ℕ → Exec (RedisManager Net) Bool
  unfolding redis_command
  is_connection_valid ctx = redis_command ctx ("PING" ∷ []) >>= λ reply. pure (is_pong reply)

  unfoldable pub is_connected : Exec (RedisManager Net) Bool
  unfolding is_connection_valid front
  is_connected = locking λ s.
      if s.initialized
      then elim (front s.connection_pool) [
        | none ↦ pure false s
        | some ctx ↦ is_connection_valid ctx s
      ]
      else pure false s

  -- The pool is not empty: its back is taken and tried.
  unfoldable pub reuse : ℕ → Exec (RedisManager Net) (Option ℕ)
  unfolding is_connection_valid redis_free create_connection
  reuse ctx = is_connection_valid ctx >>= λ valid.
      if valid then pure (some ctx) else redis_free ctx >> λ s. create_connection s.host s.port s

  unfoldable pub get_connection : Exec (RedisManager Net) (Option ℕ)
  unfolding reuse create_connection
  get_connection = pool_locking λ s. elim s.connection_pool [
    | [] ↦ create_connection s.host s.port s
    | ctx ∷ rest ↦ reuse ctx (record s { connection_pool = rest })
  ]

  unfoldable pub return_connection : ℕ → Exec (RedisManager Net) (Unit {0})
  unfolding redis_free push_back
  return_connection ctx =
      pool_locking λ s.
        if leb s.pool_size (length s.connection_pool) then redis_free ctx s else push_back ctx s

  -- What every command does: without a connection it fails; else the command is sent, its result
  -- is read from the reply, and the connection is given back.
  unfoldable pub request :
      {A : Type 0} → A → (Option Reply → A) → List String → Exec (RedisManager Net) A
  unfolding get_connection redis_command return_connection
  request failed read args = get_connection >>= λ ctx. elim ctx [
    | none ↦ pure failed
    | some c ↦ (redis_command c args >>= λ reply. return_connection c >> pure (read reply))
  ]

  unfoldable pub set : String → String → Exec (RedisManager Net) Bool
  unfolding request
  set key value = request false is_status ("SET" ∷ key ∷ value ∷ [])

  -- A getter's result is `none` for false, and the output argument for true.
  unfoldable pub get : String → Exec (RedisManager Net) (Option String)
  unfolding request
  get key = request none string_of ("GET" ∷ key ∷ [])

  unfoldable pub incr : String → Exec (RedisManager Net) (Option ℕ)
  unfolding request
  incr key = request none integer_of ("INCR" ∷ key ∷ [])

  unfoldable pub del : String → Exec (RedisManager Net) Bool
  unfolding request
  del key = request false is_integer ("DEL" ∷ key ∷ [])

  unfoldable pub hset : String → String → String → Exec (RedisManager Net) Bool
  unfolding request
  hset key field value = request false is_integer_or_status ("HSET" ∷ key ∷ field ∷ value ∷ [])

  unfoldable pub hget : String → String → Exec (RedisManager Net) (Option String)
  unfolding request
  hget key field = request none string_of ("HGET" ∷ key ∷ field ∷ [])

  unfoldable pub hdel : String → String → Exec (RedisManager Net) Bool
  unfolding request
  hdel key field = request false is_integer ("HDEL" ∷ key ∷ field ∷ [])

  unfoldable pub hgetall : String → Exec (RedisManager Net) (Option (Dict String))
  unfolding request fields_of
  hgetall key = request none fields_of_reply ("HGETALL" ∷ key ∷ [])

  -- The score and the range are texts as `%f` and `%d` write them.
  unfoldable pub zadd : String → String → String → Exec (RedisManager Net) Bool
  unfolding request
  zadd key score member = request false is_integer ("ZADD" ∷ key ∷ score ∷ member ∷ [])

  unfoldable pub zrange : String → String → String → Exec (RedisManager Net) (Option (List String))
  unfolding request strings_of
  zrange key start stop = request none strings_of_reply ("ZRANGE" ∷ key ∷ start ∷ stop ∷ [])

  unfoldable pub publish : String → String → Exec (RedisManager Net) Bool
  unfolding request
  publish channel message = request false is_integer ("PUBLISH" ∷ channel ∷ message ∷ [])
