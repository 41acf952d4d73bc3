-- ===== src/StatusService/Tests.antt =====
-- The status service with small servers.
use qt_web_server_chat.Base.{
  ℕ, suc, ◌+◌, ◌≡◌, refl, String, Bool, true, false, ◌==◌, Option, none, some, List, [], ◌∷◌, arith,
  if◌then◌else◌, ℤ, pos, negsuc, Dict, lookup, done, Settles, Answers, ◌>>◌, ◌++◌, length, ap, ◌∙◌,
  to_string,
}
use qt_web_server_chat.LoadBalancer.{init}
use qt_web_server_chat.DatabaseManager.{Mysql, no_data}
use qt_web_server_chat.RedisManager.{Reply, status, integer, array, Hiredis, RedisManager, hgetall}
use qt_web_server_chat.RedisManager.Pool.{IsReady}
use qt_web_server_chat.StatusService.{
  cache_friends_list, get_cached_friends_list, StatusService, Results, status_key,
}
use qt_web_server_chat.StatusService.RoundTrip.{
  score, numbered, elements_of, SortedSets, get_cached_friends_list-cache_friends_list,
}
use qt_web_server_chat.StatusService.Locks.{IsUnlocked}
use qt_web_server_chat.StatusService.Requests.{asks_friends, serve, serve-IsUnlocked}

-- A database that answers every query with one row.
abbrev mysql : Mysql ℕ
mysql = record {
  init = λ n. (true, n);
  real_connect = λ host port n. (true, n);
  close = λ n. n;
  ping = λ n. (true, n);
  query = λ q n. (true, n);
  insert_id = λ n. 7;
  stmt_init = λ n. (true, n);
  stmt_prepare = λ q n. (true, n);
  stmt_bind_param = λ vs n. (true, n);
  stmt_bind_result = λ n. (true, n);
  stmt_execute = λ n. (true, n);
  stmt_fetch = λ n. (no_data, n);
  stmt_fetch_all = λ n. (no_data ∷ [], n);
  stmt_close = λ n. n;
}

abbrev results : Results ℕ
results = record {
  store_result = λ n. (true, n);
  fetch_row = λ n. (some (some "ONLINE" ∷ []), n);
  fetch_rows = λ n. ((some "12" ∷ []) ∷ [], n);
  free_result = λ n. n;
}

-- A Redis server whose every hash has the given elements.
abbrev server : List (Option String) → Hiredis (Unit {0})
server elements = record {
  connect_with_timeout = λ host port n. (none, n);
  free = λ ctx n. n;
  command = λ ctx args n. elim args [
    | [] ↦ (none, n)
    | c ∷ rest ↦ (if c == "PING" then some (status "PONG") else some (array elements), n)
  ];
}

abbrev start : StatusService ℕ (Unit {0})
start = record {
  db = record {
    srv = 0;
    connection = true;
    connected = true;
    current_host = "localhost";
    current_port = 3307;
    load_balancer = init;
    locked = false;
  };
  redis = record {
    net = tt;
    connection_pool = 0 ∷ [];
    host = "localhost";
    port = 6379;
    pool_size = 10;
    initialized = true;
    locked = false;
    pool_locked = false;
  };
}

start-IsReady : IsReady start.redis
start-IsReady = record { free = refl; pool_free = refl; within = omega arith }

serve-IsUnlocked_example :
    Settles IsUnlocked (serve mysql results (server []) 0 (asks_friends (pos 3)) start)
serve-IsUnlocked_example =
    serve-IsUnlocked mysql results (server []) 0 (asks_friends (pos 3)) start refl start-IsReady

abbrev elements : List (Option String)
elements = some "status" ∷ some "AWAY" ∷ []

cached :
    hgetall (server elements) (status_key (pos 3)) start.redis
    ≡ done (some (("status", "AWAY") ∷ [])) start.redis
unfolding hgetall qt_web_server_chat.Base.insert
cached = refl

-- Users 12 and -5.
abbrev friend_ids : List ℤ
friend_ids = pos 12 ∷ negsuc 4 ∷ []

-- A Redis with one sorted set.
abbrev set_command : List String → List (String × String) → Option Reply × List (String × String)
set_command (name ∷ []) n = (some (status "PONG"), n)
set_command (name ∷ key ∷ []) n = (some (integer 1), [])
set_command (name ∷ key ∷ at ∷ m ∷ []) n =
    if name == "ZADD"
    then (some (integer 1), n ++ (at, m) ∷ [])
    else (some (array (elements_of n)), n)
set_command args n = (none, n)

abbrev sorted_set : Hiredis (List (String × String))
sorted_set = record {
  connect_with_timeout = λ host port n. (none, n);
  free = λ ctx n. n;
  command = λ ctx args n. set_command args n;
}

numbered-last :
    (i : ℕ) (ms : List String) (m : String)
    → numbered i ms ++ (score (i + length ms), m) ∷ [] ≡ numbered i (ms ++ m ∷ [])
numbered-last i [] m = ap (λ (n : ℕ). (score n, m) ∷ []) (omega arith)
numbered-last i (x ∷ ms) m =
    ap (λ (ns : List (String × String)). (score i, x) ∷ ns)
      (ap (λ (n : ℕ). numbered (i + 1) ms ++ (score n, m) ∷ []) (omega arith)
        ∙ numbered-last (i + 1) ms m)

numbered-last_zero :
    (ms : List String) (m : String)
    → numbered 0 ms ++ (score (length ms), m) ∷ [] ≡ numbered 0 (ms ++ m ∷ [])
numbered-last_zero ms m =
    ap (λ (n : ℕ). numbered 0 ms ++ (score n, m) ∷ []) (omega arith) ∙ numbered-last 0 ms m

sorted_set-SortedSets : SortedSets sorted_set (λ n key. n)
sorted_set-SortedSets = record {
  answers = λ c n. refl;
  keeps = λ c n key. refl;
  deletes = λ c n key. refl;
  adds = λ c n key m ms e new.
      ap (λ (ns : List (String × String)). ns ++ (score (length ms), m) ∷ []) e
      ∙ numbered-last_zero ms m;
  ranges = λ c n key. refl;
}

abbrev caching : RedisManager (List (String × String))
caching = record {
  net = [];
  connection_pool = 0 ∷ [];
  host = "localhost";
  port = 6379;
  pool_size = 5;
  initialized = true;
  locked = false;
  pool_locked = false;
}

caching-IsReady : IsReady caching
caching-IsReady = record { free = refl; pool_free = refl; within = omega arith }

get_cached_friends_list-cache_friends_list_example :
    Answers
      (λ a t. a ≡ some friend_ids)
      ((cache_friends_list sorted_set (pos 3) friend_ids
          >> get_cached_friends_list sorted_set (pos 3))
        caching)
unfolding to_string
get_cached_friends_list-cache_friends_list_example =
    get_cached_friends_list-cache_friends_list sorted_set (λ n key. n) sorted_set-SortedSets 0 []
      (pos 3) friend_ids caching caching-IsReady refl (omega arith, (omega arith, tt))
      (refl, (refl, tt))
