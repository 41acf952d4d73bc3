-- ===== src/RedisManager/Tests.antt =====
-- The Redis manager with a small server.
use qt_web_server_chat.Base.{
  ℕ, suc, ◌≡◌, refl, String, true, false, ◌==◌, Option, none, some, List, [], ◌∷◌, arith,
  if◌then◌else◌, length, Returns, ltb, Answers,
}
use qt_web_server_chat.RedisManager.{
  Reply, status, integer, Hiredis, RedisManager, is_status, request,
}
use qt_web_server_chat.RedisManager.Pool.{IsReady, request-IsReady}
use qt_web_server_chat.RedisManager.Subscribe.{Subscriptions, undefined, array, other, subscribe}

-- A server that answers PING, and everything else with a number; its state counts the contexts, of
-- which two can be made.
abbrev answer : List String → Option Reply
answer [] = none
answer (c ∷ args) = if c == "PING" then some (status "PONG") else some (integer (length args))

abbrev server : Hiredis ℕ
server = record {
  connect_with_timeout =
      λ host port n. if ltb n 2 then (some (n, false), suc n) else (some (n, true), suc n);
  free = λ ctx n. n;
  command = λ ctx args n. (answer args, n);
}

abbrev manager : RedisManager ℕ
manager = record {
  net = 0;
  connection_pool = [];
  host = "localhost";
  port = 6379;
  pool_size = 10;
  initialized = false;
  locked = false;
  pool_locked = false;
}

abbrev started : RedisManager ℕ
started = record manager { connection_pool = 1 ∷ 0 ∷ []; initialized = true; pool_size = 2 }

started-IsReady : IsReady started
started-IsReady = record { free = refl; pool_free = refl; within = omega arith }

request-IsReady_example : Returns IsReady (request server false is_status ("SET" ∷ []) started)
request-IsReady_example =
    request-IsReady server false is_status ("SET" ∷ []) started started-IsReady

-- Two messages, the second of which is no text, and the end of the connection.
abbrev feed : Subscriptions ℕ
feed = record {
  append_command = λ ctx text n. (true, n);
  get_replies = λ ctx n. (
    other
        ∷ array (some "message" ∷ some "news" ∷ some "hello" ∷ [])
        ∷ array (some "message" ∷ none ∷ some "x" ∷ [])
        ∷ [],
    n,
  );
}

delivered :
    Answers
      (λ a t. a ≡ (undefined, ("news", "hello") ∷ []))
      (subscribe server feed ("news" ∷ []) true started)
unfolding subscribe
delivered = refl
