-- ===== src/StatusService/Cache.antt =====
-- The cache's part of Services/StatusServer/status_service_impl.cpp. Redis's commands throw nothing,
-- so the `try` blocks around them do nothing.
use Prim.Native.String.{◌++◌}
use qt_web_server_chat.Base.{
  ℕ, ◌+◌, ◌/◌, String, Bool, true, ◌&&◌, Option, none, some, List, [], ◌∷◌, ℤ, pos, to_string, stoi,
  Dict, lookup, Exec, pure, ◌>>=◌, ◌>>◌,
}
use qt_web_server_chat.RedisManager.{Hiredis, RedisManager, hset, hgetall, del, zadd, zrange}
use qt_web_server_chat.StatusService.Database.{UserStatus, offline, status_text, parse_status}

abbrev pub status_key : ℤ → String
status_key user_id = "user:status:" ++ to_string user_id

abbrev pub friends_key : ℤ → String
friends_key user_id = "user:friends:" ++ to_string user_id

-- The status and the session token, if the hash has one.
unfoldable pub status_of_fields : Dict String → UserStatus × Option String
unfolding parse_status
status_of_fields fields = (
  elim (lookup "status" fields) [ none ↦ offline | some text ↦ parse_status text ],
  lookup "session_token" fields,
)

-- The loop of getCachedFriendsList, which skips a text that is no number.
unfoldable pub valid_ids : List String → List ℤ
valid_ids [] = []
valid_ids (s ∷ ss) = let rest = valid_ids ss in elim (stoi s) [ none ↦ rest | some n ↦ n ∷ rest ]

-- `!friend_ids.empty()`
abbrev pub occupied : List ℤ → Option (List ℤ)
occupied [] = none
occupied (n ∷ ns) = some (n ∷ ns)

module _ {Net : Type 0} (hiredis : Hiredis Net) where
  -- std::time counts seconds.
  unfoldable pub update_user_status_in_cache :
      ℕ → ℤ → UserStatus → String → Exec (RedisManager Net) Bool
  unfolding hset status_text
  update_user_status_in_cache now user_id st session_token =
      hset hiredis (status_key user_id) "status" (status_text st) >>= λ a.
      hset hiredis (status_key user_id) "session_token" session_token >>= λ b.
      hset hiredis (status_key user_id) "last_updated" (to_string (pos (now / 1000))) >>= λ c.
      pure (a && b && c)

  unfoldable pub get_user_status_from_cache :
      ℤ → Exec (RedisManager Net) (Option (UserStatus × Option String))
  unfolding hgetall status_of_fields
  get_user_status_from_cache user_id = hgetall hiredis (status_key user_id) >>= λ result.
      elim result [ none ↦ pure none | some fields ↦ pure (some (status_of_fields fields)) ]

  -- The loop of cacheFriendsList: the scores count from `i`, as `%f` writes them.
  unfoldable pub add_scores : String → ℕ → List ℤ → Exec (RedisManager Net) (Unit {0})
  unfolding zadd
  add_scores key i [] = pure tt
  add_scores key i (id ∷ ids) =
      zadd hiredis key (to_string (pos i) ++ ".000000") (to_string id) >> add_scores key (i + 1) ids

  unfoldable pub cache_friends_list : ℤ → List ℤ → Exec (RedisManager Net) Bool
  unfolding del add_scores
  cache_friends_list user_id friend_ids =
      del hiredis (friends_key user_id)
      >> (add_scores (friends_key user_id) 0 friend_ids >> pure true)

  -- `none` is false: a failed command, or no valid number.
  unfoldable pub get_cached_friends_list : ℤ → Exec (RedisManager Net) (Option (List ℤ))
  unfolding zrange valid_ids
  get_cached_friends_list user_id = zrange hiredis (friends_key user_id) "0" "-1" >>= λ result.
      elim result [ none ↦ pure none | some texts ↦ pure (occupied (valid_ids texts)) ]
