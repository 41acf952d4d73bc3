-- ===== src/StatusService/Answers.antt =====
-- GetUserStatus of Services/StatusServer/status_service_impl.cpp when the cache answers.
use qt_web_server_chat.Base.{
  ℕ, ◌≡◌, refl, String, true, none, some, List, [], ◌∷◌, arith, ℤ, Dict, lookup, done,
}
use qt_web_server_chat.DatabaseManager.{Mysql}
use qt_web_server_chat.RedisManager.{
  Hiredis, RedisManager, is_pong, array, hgetall, fields_of, fields_of_reply,
}
use qt_web_server_chat.RedisManager.Pool.{IsReady, request-reuses}
use qt_web_server_chat.StatusService.{
  StatusService, UserStatus, offline, online, away, busy, unrecognized, status_text, parse_status,
  Results, status_key, status_of_fields, get_user_status_from_cache, get_user_status, cached_answer,
}

-- The statuses that have a text of their own.
abbrev pub recognized : UserStatus → UserStatus
recognized (unrecognized n) = offline
recognized st = st

-- The text that is written for a status, to the cache and to the database, is read as that status;
-- a number outside the enumeration is read as OFFLINE.
pub parse_status-status_text : (st : UserStatus) → parse_status (status_text st) ≡ recognized st
unfolding parse_status status_text
parse_status-status_text offline = refl
parse_status-status_text online = refl
parse_status-status_text away = refl
parse_status-status_text busy = refl
parse_status-status_text (unrecognized n) = refl

module _ {Srv Net : Type 0} (mysql : Mysql Srv) (results : Results Srv) (hiredis : Hiredis Net)
    (now : ℕ) (user_id : ℤ) where
  -- If the user's hash in Redis can be read and has the text of a status, GetUserStatus answers
  -- that status from the cache, and the database is not touched.
  pub get_user_status_cached :
      (st : UserStatus) (fields : Dict String) (s : StatusService Srv Net) (r : RedisManager Net)
      → hgetall hiredis (status_key user_id) s.redis ≡ done (some fields) r
      → lookup "status" fields ≡ some (status_text st)
      → get_user_status mysql results hiredis now user_id s
        ≡ done (cached_answer now (recognized st)) (record s { redis = r })
  unfolding get_user_status get_user_status_from_cache status_of_fields
  get_user_status_cached st fields s r read found = ground (arith, parse_status-status_text st)

  -- With the mutexes free, the pool within its size and its last connection alive: if Redis
  -- answers HGETALL with no elements, as it does for a key that does not exist, GetUserStatus
  -- answers success and OFFLINE from the cache, and does not ask the database, whatever status
  -- is stored there.
  pub get_user_status_missing :
      (s : StatusService Srv Net) (ctx : ℕ) (rest : List ℕ)
      → IsReady s.redis
      → s.redis.connection_pool ≡ ctx ∷ rest
      → is_pong (hiredis.command ctx ("PING" ∷ []) s.redis.net).0 ≡ true
      → (hiredis.command ctx
          ("HGETALL" ∷ status_key user_id ∷ [])
          (hiredis.command ctx ("PING" ∷ []) s.redis.net).1).0
        ≡ some (array [])
      → let after =
          (hiredis.command ctx
            ("HGETALL" ∷ status_key user_id ∷ [])
            (hiredis.command ctx ("PING" ∷ []) s.redis.net).1).1 in
        get_user_status mysql results hiredis now user_id s
        ≡ done (cached_answer now offline) (record s { redis = record s.redis { net = after } })
  unfolding get_user_status get_user_status_from_cache status_of_fields hgetall lookup fields_of
  get_user_status_missing s ctx rest ready pool pong empty = ground (
    arith,
    request-reuses hiredis none fields_of_reply ("HGETALL" ∷ status_key user_id ∷ []) s.redis ctx
        rest ready pool pong,
  )
