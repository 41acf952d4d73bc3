-- ===== src/StatusService/Requests.antt =====
-- The requests of Services/StatusServer/status_service_impl.cpp, and the mutexes that they take.
use qt_web_server_chat.Base.{
  ℕ, ◌≡◌, String, false, none, List, [], ◌∷◌, ℤ, Exec, pure, ◌>>=◌, Settles, Calm, Calm-bind,
  Calm-pure, Calm-option, Calm-if,
}
use qt_web_server_chat.DatabaseManager.{Mysql}
use qt_web_server_chat.RedisManager.{Hiredis}
use qt_web_server_chat.RedisManager.Pool.{IsReady}
use qt_web_server_chat.StatusService.{
  StatusService, UserStatus, Results, update_user_status, get_user_status, status_of_friend,
  statuses_of_friends, friends_of, get_friends_status, add_friend, get_friends_list,
}
use qt_web_server_chat.StatusService.Locks.{
  IsUnlocked, on_redis-Calm, update_user_status_in_db-Calm, add_friend_to_db-Calm,
  friend_exists_in_db-Calm, get_friends_ids-Calm, get_user_status_from_db-Calm,
}
use qt_web_server_chat.StatusService.CacheLocks.{
  update_user_status_in_cache-Calm, get_user_status_from_cache-Calm, cache_friends_list-Calm,
  get_cached_friends_list-Calm,
}

-- A call of the service.
pub data Request : Type 0 where
  updates : ℤ → UserStatus → String → Request
  asks asks_friends lists : ℤ → Request
  adds : ℤ → ℤ → Request

abbrev ignoring : {S A : Type 0} → Exec S A → Exec S (Unit {0})
ignoring m = m >>= λ a. pure tt

module _ {Srv Net : Type 0} (mysql : Mysql Srv) (results : Results Srv)
    (hiredis : Hiredis Net) where
  unfoldable pub serve : ℕ → Request → Exec (StatusService Srv Net) (Unit {0})
  serve now (updates user_id st token) =
      ignoring (update_user_status mysql results hiredis now user_id st token)
  serve now (asks user_id) = ignoring (get_user_status mysql results hiredis now user_id)
  serve now (asks_friends user_id) = ignoring (get_friends_status mysql results hiredis now user_id)
  serve now (adds user_id friend_id) = ignoring (add_friend mysql results hiredis user_id friend_id)
  serve now (lists user_id) = ignoring (get_friends_list mysql results hiredis user_id)

  abbrev IsCalm : {A : Type 0} → Exec (StatusService Srv Net) A → Type 0
  IsCalm = Calm IsUnlocked

  update_user_status-Calm :
      (now : ℕ) (user_id : ℤ) (st : UserStatus) (token : String)
      → IsCalm (update_user_status mysql results hiredis now user_id st token)
  unfolding update_user_status
  update_user_status-Calm now user_id st token =
      Calm-bind (update_user_status_in_db-Calm mysql results hiredis user_id st token) λ stored.
        Calm-bind
          (on_redis-Calm mysql results hiredis _
            (update_user_status_in_cache-Calm hiredis now user_id st token))
          λ c. Calm-pure IsUnlocked _

  get_user_status-Calm :
      (now : ℕ) (user_id : ℤ) → IsCalm (get_user_status mysql results hiredis now user_id)
  unfolding get_user_status
  get_user_status-Calm now user_id =
      Calm-bind
        (on_redis-Calm mysql results hiredis _ (get_user_status_from_cache-Calm hiredis user_id))
        λ cached.
          Calm-option cached
            (Calm-bind (get_user_status_from_db-Calm mysql results hiredis user_id)
              λ stored. Calm-pure IsUnlocked _)
            λ found. Calm-pure IsUnlocked _

  status_of_friend-Calm :
      (now : ℕ) (id : ℤ) → IsCalm (status_of_friend mysql results hiredis now id)
  unfolding status_of_friend
  status_of_friend-Calm now id =
      Calm-bind (on_redis-Calm mysql results hiredis _ (get_user_status_from_cache-Calm hiredis id))
        λ cached.
          Calm-option cached
            (Calm-bind (get_user_status_from_db-Calm mysql results hiredis id) λ stored.
              Calm-option stored (Calm-pure IsUnlocked none) λ st.
                Calm-bind
                  (on_redis-Calm mysql results hiredis _
                    (update_user_status_in_cache-Calm hiredis now id st ""))
                  λ c. Calm-pure IsUnlocked _)
            λ found. Calm-pure IsUnlocked _

  statuses_of_friends-Calm :
      (now : ℕ) (ids : List ℤ) → IsCalm (statuses_of_friends mysql results hiredis now ids)
  unfolding statuses_of_friends
  statuses_of_friends-Calm now [] = Calm-pure IsUnlocked []
  statuses_of_friends-Calm now (id ∷ ids) =
      Calm-bind (status_of_friend-Calm now id)
        λ found. Calm-bind (statuses_of_friends-Calm now ids) λ rest. Calm-pure IsUnlocked _

  friends_of-Calm : (user_id : ℤ) → IsCalm (friends_of mysql results hiredis user_id)
  unfolding friends_of
  friends_of-Calm user_id =
      Calm-bind
        (on_redis-Calm mysql results hiredis _ (get_cached_friends_list-Calm hiredis user_id))
        λ cached.
          Calm-option cached
            (Calm-bind (get_friends_ids-Calm mysql results hiredis user_id) λ ids.
              Calm-bind
                (on_redis-Calm mysql results hiredis _
                  (cache_friends_list-Calm hiredis user_id ids))
                λ c. Calm-pure IsUnlocked _)
            λ ids. Calm-pure IsUnlocked ids

  add_friend-Calm :
      (user_id friend_id : ℤ) → IsCalm (add_friend mysql results hiredis user_id friend_id)
  unfolding add_friend
  add_friend-Calm user_id friend_id =
      Calm-bind (friend_exists_in_db-Calm mysql results hiredis user_id friend_id) λ friends.
        Calm-if friends (Calm-pure IsUnlocked _) (
          Calm-bind (add_friend_to_db-Calm mysql results hiredis user_id friend_id) λ added.
            Calm-if added
              (Calm-bind (add_friend_to_db-Calm mysql results hiredis friend_id user_id)
                λ both. Calm-pure IsUnlocked _)
              (Calm-pure IsUnlocked _))

  ignored : {A : Type 0} {m : Exec (StatusService Srv Net) A} → IsCalm m → IsCalm (ignoring m)
  ignored c = Calm-bind c λ a. Calm-pure IsUnlocked tt

  -- Every request of the service, begun with the managers' mutexes free and Redis's pool within
  -- its size, comes to an end, by an answer or an exception, with the mutexes free and the pool
  -- within its size, whatever the two servers answer.
  pub serve-IsUnlocked :
      (now : ℕ) (r : Request) (s : StatusService Srv Net)
      → s.db.locked ≡ false
      → IsReady s.redis
      → Settles IsUnlocked (serve now r s)
  unfolding serve get_friends_status get_friends_list
  serve-IsUnlocked now (updates user_id st token) s free ready =
      (ignored (update_user_status-Calm now user_id st token)).at s (free, ready)
  serve-IsUnlocked now (asks user_id) s free ready =
      (ignored (get_user_status-Calm now user_id)).at s (free, ready)
  serve-IsUnlocked now (asks_friends user_id) s free ready =
      (ignored (Calm-bind (friends_of-Calm user_id) (statuses_of_friends-Calm now))).at s
        (free, ready)
  serve-IsUnlocked now (adds user_id friend_id) s free ready =
      (ignored (add_friend-Calm user_id friend_id)).at s (free, ready)
  serve-IsUnlocked now (lists user_id) s free ready =
      (ignored (
          Calm-bind (get_friends_ids-Calm mysql results hiredis user_id)
            λ ids. Calm-pure IsUnlocked _)).at
        s (free, ready)
