-- ===== src/StatusService/RoundTrip.antt =====
-- What getCachedFriendsList of Services/StatusServer/status_service_impl.cpp reads after
-- cacheFriendsList, with a Redis that keeps sorted sets.
use Prim.Native.String.{◌++◌ as ◌++ˢ◌}
use mathlib.Core.List
use qt_web_server_chat.Base.{
  ℕ, ◌+◌, ◌≡◌, refl, sym, ap, ◌∙◌, subst, String, Bool, true, false, Option, none, some, List, [],
  ◌∷◌, ◌++◌, arith, ℤ, pos, to_string, length, ◌==◌, if◌then◌else◌, done, Returns, Answers, ◌>>◌,
  continue-Returns, Answers-continue,
}
use qt_web_server_chat.RedisManager.{
  array, Hiredis, RedisManager, is_pong, is_integer, strings_of, strings_of_reply, del, zadd,
  zrange,
}
use qt_web_server_chat.RedisManager.Pool.{IsReady, request-reuses}
use qt_web_server_chat.StatusService.{
  friends_key, occupied, add_scores, cache_friends_list, get_cached_friends_list,
}
use qt_web_server_chat.StatusService.Friends.{members, AllInt32, get_cached_friends_list-members}

-- A score, as `%f` writes it.
abbrev pub score : ℕ → String
score i = to_string (pos i) ++ˢ ".000000"

-- Members with the scores from a number on.
abbrev pub numbered : ℕ → List String → List (String × String)
numbered i [] = []
numbered i (m ∷ ms) = (score i, m) ∷ numbered (i + 1) ms

abbrev pub elements_of : List (String × String) → List (Option String)
elements_of [] = []
elements_of ((at, m) ∷ ms) = some m ∷ elements_of ms

abbrev pub occurs : String → List String → Bool
occurs x [] = false
occurs x (m ∷ ms) = let rest = occurs x ms in if x == m then true else rest

-- Redis answers; DEL removes a key, ZADD puts a new member whose score is higher than the others'
-- behind them, and ZRANGE with 0 and -1 gives all members by their scores. `ranked` is what stands
-- under a key.
pub record SortedSets {Net : Type 0} (hiredis : Hiredis Net)
    (ranked : Net → String → List (String × String)) : Type 0 where
  pub answers : (c : ℕ) (n : Net) → is_pong (hiredis.command c ("PING" ∷ []) n).0 ≡ true
  pub keeps :
      (c : ℕ) (n : Net) (key : String)
      → ranked (hiredis.command c ("PING" ∷ []) n).1 key ≡ ranked n key
  pub deletes :
      (c : ℕ) (n : Net) (key : String) → ranked (hiredis.command c ("DEL" ∷ key ∷ []) n).1 key ≡ []
  pub adds :
      (c : ℕ) (n : Net) (key m : String) (ms : List String)
      → ranked n key ≡ numbered 0 ms
      → occurs m ms ≡ false
      → ranked (hiredis.command c ("ZADD" ∷ key ∷ score (length ms) ∷ m ∷ []) n).1 key
        ≡ numbered 0 (ms ++ m ∷ [])
  pub ranges :
      (c : ℕ) (n : Net) (key : String)
      → (hiredis.command c ("ZRANGE" ∷ key ∷ "0" ∷ "-1" ∷ []) n).0
        ≡ some (array (elements_of (ranked n key)))

strings_of-numbered : (i : ℕ) (ms : List String) → strings_of (elements_of (numbered i ms)) ≡ ms
unfolding strings_of
strings_of-numbered i [] = refl
strings_of-numbered i (m ∷ ms) = ap (◌∷◌ m) (strings_of-numbered (i + 1) ms)

length-last : (m : String) (ms : List String) → length (ms ++ m ∷ []) ≡ length ms + 1
length-last m [] = refl
length-last m (x ∷ ms) = ground (arith, length-last m ms)

-- No id occurs twice, or among the members that are there.
abbrev pub AllNew : List String → List ℤ → Type 0
AllNew ms [] = Unit {0}
AllNew ms (id ∷ ids) = (occurs (to_string id) ms ≡ false) × AllNew (ms ++ to_string id ∷ []) ids

module _ {Net : Type 0} (hiredis : Hiredis Net) (ranked : Net → String → List (String × String))
    (laws : SortedSets hiredis ranked) (c : ℕ) (rest : List ℕ) (key : String) where
  -- A manager with this connection, and these members under the key.
  record Caches (ms : List String) (s : RedisManager Net) : Type 0 where
    ready : IsReady s
    pool : s.connection_pool ≡ c ∷ rest
    held : ranked s.net key ≡ numbered 0 ms

  -- The network after the test of the connection.
  abbrev tested : RedisManager Net → Net
  tested s = (hiredis.command c ("PING" ∷ []) s.net).1

  del-Caches :
      (s : RedisManager Net)
      → IsReady s
      → s.connection_pool ≡ c ∷ rest
      → Returns (Caches []) (del hiredis key s)
  unfolding del
  del-Caches s r p =
      rw
        (request-reuses hiredis false is_integer ("DEL" ∷ key ∷ []) s c rest r p
          (laws.answers c s.net))
        (record {
          ready = record { free = r.free; pool_free = r.pool_free; within = r.within };
          pool = p;
          held = laws.deletes c (tested s) key;
        })

  zadd-Caches :
      (m : String) (ms : List String) (s : RedisManager Net)
      → occurs m ms ≡ false
      → Caches ms s
      → Returns (Caches (ms ++ m ∷ [])) (zadd hiredis key (score (length ms)) m s)
  unfolding zadd
  zadd-Caches m ms s new w =
      rw
        (request-reuses hiredis false is_integer ("ZADD" ∷ key ∷ score (length ms) ∷ m ∷ []) s c
          rest w.ready w.pool (laws.answers c s.net))
        (record {
          ready = record {
            free = w.ready.free;
            pool_free = w.ready.pool_free;
            within = w.ready.within;
          };
          pool = w.pool;
          held = laws.adds c (tested s) key m ms (laws.keeps c s.net key ∙ w.held) new;
        })

  add_scores-Caches :
      (ms : List String) (ids : List ℤ) (s : RedisManager Net)
      → AllNew ms ids
      → Caches ms s
      → Returns (Caches (ms ++ members ids)) (add_scores hiredis key (length ms) ids s)
  unfolding add_scores
  add_scores-Caches ms [] s new w = subst (λ all. Caches all s) (sym (List.append-nil ms)) w
  add_scores-Caches ms (id ∷ ids) s new w =
      continue-Returns (zadd hiredis key (score (length ms)) (to_string id) s) _
        (zadd-Caches (to_string id) ms s new.0 w)
        (λ a. record {
          at = λ t h.
              subst
                (λ (n : ℕ).
                  Returns (Caches (ms ++ to_string id ∷ members ids))
                    (add_scores hiredis key n ids t))
                (length-last (to_string id) ms)
                (subst
                  (λ all.
                    Returns (Caches all)
                      (add_scores hiredis key (length (ms ++ to_string id ∷ [])) ids t))
                  (List.append_assoc ms (to_string id ∷ []) (members ids))
                  (add_scores-Caches (ms ++ to_string id ∷ []) ids t new.1 h));
        })

  zrange-Caches :
      (ms : List String) (s : RedisManager Net)
      → Caches ms s
      → zrange hiredis key "0" "-1" s
        ≡ done
            (some ms)
            (record s { net = (hiredis.command c ("ZRANGE" ∷ key ∷ "0" ∷ "-1" ∷ []) (tested s)).1 })
  unfolding zrange
  zrange-Caches ms s w =
      let all =
        laws.ranges c (tested s) key
        ∙ ap (λ found. some (array (elements_of found))) (laws.keeps c s.net key ∙ w.held) in
      rw
        (request-reuses hiredis none strings_of_reply ("ZRANGE" ∷ key ∷ "0" ∷ "-1" ∷ []) s c rest
          w.ready w.pool (laws.answers c s.net))
        (rw (all, strings_of_reply, strings_of-numbered 0 ms) refl)

module _ {Net : Type 0} (hiredis : Hiredis Net) (ranked : Net → String → List (String × String))
    (laws : SortedSets hiredis ranked) (c : ℕ) (rest : List ℕ) where
  cache_friends_list-Caches :
      (user_id : ℤ) (ids : List ℤ) (s : RedisManager Net)
      → IsReady s
      → s.connection_pool ≡ c ∷ rest
      → AllNew [] ids
      → Returns
          (Caches hiredis ranked laws c rest (friends_key user_id) (members ids))
          (cache_friends_list hiredis user_id ids s)
  unfolding cache_friends_list
  cache_friends_list-Caches user_id ids s r p new =
      let key = friends_key user_id in
      continue-Returns (del hiredis key s) _ (del-Caches hiredis ranked laws c rest key s r p) (λ a.
        record {
          at = λ t w.
              continue-Returns (add_scores hiredis key 0 ids t) _
                (add_scores-Caches hiredis ranked laws c rest key [] ids t new w)
                (λ b. record { at = λ u h. h });
        })

module _ {Net : Type 0} (hiredis : Hiredis Net)
    (ranked : Net → String → List (String × String)) where
  -- With a Redis that keeps sorted sets and a connection to it in the pool, the mutexes free and
  -- the pool within its size: getCachedFriendsList after cacheFriendsList of a user's list of
  -- friends, whose ids are 32-bit integers and occur once each, returns that list, in its order,
  -- whatever was cached before; only an empty list is answered as not cached.
  pub get_cached_friends_list-cache_friends_list :
      (laws : SortedSets hiredis ranked) (c : ℕ) (rest : List ℕ) (user_id : ℤ) (ids : List ℤ)
      (s : RedisManager Net)
      → IsReady s
      → s.connection_pool ≡ c ∷ rest
      → AllInt32 ids
      → AllNew [] ids
      → Answers
          (λ a t. a ≡ occupied ids)
          ((cache_friends_list hiredis user_id ids >> get_cached_friends_list hiredis user_id) s)
  get_cached_friends_list-cache_friends_list laws c rest user_id ids s r p small new =
      let key = friends_key user_id in
      let Held =
        λ (ms : List String) (t : RedisManager Net). Caches hiredis ranked laws c rest key ms t in
      Answers-continue (Held (members ids)) (λ a t. a ≡ occupied ids)
        (cache_friends_list hiredis user_id ids s) (λ b. get_cached_friends_list hiredis user_id)
        (cache_friends_list-Caches hiredis ranked laws c rest user_id ids s r p new)
        (λ a t w.
          rw
            (get_cached_friends_list-members hiredis user_id ids t _ small
              (zrange-Caches hiredis ranked laws c rest key (members ids) t w))
            refl)
