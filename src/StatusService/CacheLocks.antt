-- ===== src/StatusService/CacheLocks.antt =====
-- Mutexes in the cache helpers of Services/StatusServer/status_service_impl.cpp.
use qt_web_server_chat.Base.{
  ℕ, ◌+◌, String, true, false, Option, none, List, [], ◌∷◌, ℤ, Calm, Calm-bind, Calm-pure,
  Calm-Returns, Calm-option,
}
use qt_web_server_chat.RedisManager.{
  is_integer_or_status, fields_of_reply, strings_of_reply, is_integer, Reply, Hiredis, request,
  hset, hgetall, del, zadd, zrange,
}
use qt_web_server_chat.RedisManager.Pool.{IsReady, request-IsReady}
use qt_web_server_chat.StatusService.{
  UserStatus, add_scores, update_user_status_in_cache, get_user_status_from_cache,
  cache_friends_list, get_cached_friends_list,
}

module _ {Net : Type 0} (hiredis : Hiredis Net) where
  request-Calm :
      {A : Type 0} (failed : A) (read : Option Reply → A) (args : List String)
      → Calm IsReady (request hiredis failed read args)
  request-Calm failed read args = Calm-Returns IsReady _ (request-IsReady hiredis failed read args)

  pub hset-Calm : (key field value : String) → Calm IsReady (hset hiredis key field value)
  unfolding hset
  hset-Calm key field value = request-Calm false is_integer_or_status _

  hgetall-Calm : (key : String) → Calm IsReady (hgetall hiredis key)
  unfolding hgetall
  hgetall-Calm key = request-Calm none fields_of_reply _

  del-Calm : (key : String) → Calm IsReady (del hiredis key)
  unfolding del
  del-Calm key = request-Calm false is_integer _

  zadd-Calm : (key score member : String) → Calm IsReady (zadd hiredis key score member)
  unfolding zadd
  zadd-Calm key score member = request-Calm false is_integer _

  zrange-Calm : (key start stop : String) → Calm IsReady (zrange hiredis key start stop)
  unfolding zrange
  zrange-Calm key start stop = request-Calm none strings_of_reply _

  pub update_user_status_in_cache-Calm :
      (now : ℕ) (user_id : ℤ) (st : UserStatus) (token : String)
      → Calm IsReady (update_user_status_in_cache hiredis now user_id st token)
  unfolding update_user_status_in_cache
  update_user_status_in_cache-Calm now user_id st token =
      Calm-bind (hset-Calm _ _ _)
        λ a. Calm-bind (hset-Calm _ _ _) λ b. Calm-bind (hset-Calm _ _ _) λ c. Calm-pure IsReady _

  pub get_user_status_from_cache-Calm :
      (user_id : ℤ) → Calm IsReady (get_user_status_from_cache hiredis user_id)
  unfolding get_user_status_from_cache
  get_user_status_from_cache-Calm user_id =
      Calm-bind (hgetall-Calm _)
        λ o. Calm-option o (Calm-pure IsReady none) λ fields. Calm-pure IsReady _

  add_scores-Calm :
      (key : String) (i : ℕ) (ids : List ℤ) → Calm IsReady (add_scores hiredis key i ids)
  unfolding add_scores
  add_scores-Calm key i [] = Calm-pure IsReady tt
  add_scores-Calm key i (id ∷ ids) =
      Calm-bind (zadd-Calm _ _ _) λ a. add_scores-Calm key (i + 1) ids

  pub cache_friends_list-Calm :
      (user_id : ℤ) (ids : List ℤ) → Calm IsReady (cache_friends_list hiredis user_id ids)
  unfolding cache_friends_list
  cache_friends_list-Calm user_id ids =
      Calm-bind (del-Calm _) λ a. Calm-bind (add_scores-Calm _ 0 ids) λ b. Calm-pure IsReady true

  pub get_cached_friends_list-Calm :
      (user_id : ℤ) → Calm IsReady (get_cached_friends_list hiredis user_id)
  unfolding get_cached_friends_list
  get_cached_friends_list-Calm user_id =
      Calm-bind (zrange-Calm _ _ _)
        λ o. Calm-option o (Calm-pure IsReady none) λ texts. Calm-pure IsReady _
