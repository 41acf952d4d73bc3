-- ===== src/StatusService/Locks.antt =====
-- Mutexes in the helpers of Services/StatusServer/status_service_impl.cpp.
use qt_web_server_chat.Base.{
  ◌≡◌, refl, String, Bool, true, false, Option, none, some, List, [], arith, if◌then◌else◌, ℤ,
  Outcome, done, thrown, blocked, Exec, pure, with_lock, unlock, ◌>>=◌, Settles, Calm, Calm-bind,
  Calm-pure,
}
use qt_web_server_chat.LoadBalancer.{ServiceInstance, get_next_healthy_instance}
use qt_web_server_chat.DatabaseManager.{
  Mysql, DatabaseManager, service_name, locking, call, is_connected_impl, connect_to, connect_impl,
  available, when_available,
}
use qt_web_server_chat.RedisManager.{Hiredis, RedisManager}
use qt_web_server_chat.RedisManager.Pool.{IsReady}
use qt_web_server_chat.StatusService.Database.{
  ids_of, counts_some, column_of, status_of_row, Row, from_row, from_rows, with_connection,
  selecting,
}
use qt_web_server_chat.StatusService.{
  StatusService, UserStatus, Results, on_db, on_redis, update_user_status_in_db, add_friend_to_db,
  get_friends_ids, get_user_status_from_db, friend_exists_in_db,
}

module _ {Srv : Type 0} (mysql : Mysql Srv) where
  abbrev IsHeld : DatabaseManager Srv → Type 0
  IsHeld s = s.locked ≡ true

  abbrev IsFree : DatabaseManager Srv → Type 0
  IsFree s = s.locked ≡ false

  connect_to-IsHeld : (o : Option ServiceInstance) → Calm IsHeld (connect_to mysql o)
  unfolding connect_to
  connect_to-IsHeld none = record { at = λ s h. ground arith }
  connect_to-IsHeld (some i) = record { at = λ s h. ground arith }

  available-IsHeld : Calm IsHeld (available mysql)
  unfolding available is_connected_impl connect_impl
  available-IsHeld = record {
    at = λ s h.
        let next =
          get_next_healthy_instance (λ lo hi. lo) s.load_balancer service_name "round_robin" in
        ground (arith, (connect_to-IsHeld next.0).at (record s { load_balancer = next.1 }));
  }

  module _ {A : Type 0} where
    call-IsHeld : (f : Srv → A × Srv) → Calm IsHeld (call f)
    call-IsHeld f = record { at = λ s h. h }

    locking-IsFree : (m : Exec (DatabaseManager Srv) A) → Calm IsHeld m → Calm IsFree (locking m)
    locking-IsFree m c = record {
      at = λ s h.
          rw (h, with_lock)
            (freed (m (record s { locked = true })) (c.at (record s { locked = true }) refl));
    }
      where
        freed :
            (r : Outcome (DatabaseManager Srv) A)
            → Settles IsHeld r
            → Settles IsFree (unlock (λ (x : DatabaseManager Srv). record x { locked = false }) r)
        freed (done a x) p = refl
        freed (thrown x) p = refl
        freed blocked p = p

    with_connection-IsFree :
        (failed : A) (body : Exec (DatabaseManager Srv) A)
        → Calm IsHeld body
        → Calm IsFree (with_connection mysql failed body)
    unfolding with_connection when_available
    with_connection-IsFree failed body c = locking-IsFree _ (Calm-bind available-IsHeld branch)
      where
        within : Calm IsHeld (λ s. if s.connection then body s else pure failed s)
        within = record { at = λ s h. ground (arith, c.at s h) }

        branch :
            (up : Bool)
            → Calm IsHeld
                (if up then (λ s. if s.connection then body s else pure failed s) else pure failed)
        branch true = within
        branch false = Calm-pure _ failed

module _ {Srv A : Type 0} (mysql : Mysql Srv) (results : Results Srv) where
  selecting-IsFree :
      (failed : A) (sql : String) (body : Exec (DatabaseManager Srv) A)
      → Calm (IsHeld mysql) body
      → Calm (IsFree mysql) (selecting mysql results failed sql body)
  unfolding selecting
  selecting-IsFree failed sql body c =
      with_connection-IsFree mysql failed _ (Calm-bind (call-IsHeld mysql (mysql.query sql)) sent)
    where
      stored : (got : Bool) → Calm (IsHeld mysql) (if got then body else pure failed)
      stored true = c
      stored false = Calm-pure _ failed

      sent :
          (good : Bool)
          → Calm (IsHeld mysql) (
              if good
              then (call results.store_result >>= λ got. if got then body else pure failed)
              else pure failed)
      sent true = Calm-bind (call-IsHeld mysql results.store_result) stored
      sent false = Calm-pure _ failed

  from_row-IsHeld : (read : Option Row → Option A) → Calm (IsHeld mysql) (from_row results read)
  unfolding from_row
  from_row-IsHeld read = record { at = λ s h. ground arith }

  from_rows-IsHeld : (read : List Row → Option A) → Calm (IsHeld mysql) (from_rows results read)
  unfolding from_rows
  from_rows-IsHeld read = record { at = λ s h. ground arith }

module _ {Srv Net : Type 0} where
  -- No mutex of the database's or of Redis's manager is held, and Redis's pool is within its size.
  abbrev pub IsUnlocked : StatusService Srv Net → Type 0
  IsUnlocked s = (s.db.locked ≡ false) × IsReady s.redis

module _ {Srv Net : Type 0} (mysql : Mysql Srv) (results : Results Srv)
    (hiredis : Hiredis Net) where
  module _ {A : Type 0} where
    on_db-Calm :
        (m : Exec (DatabaseManager Srv) A)
        → Calm (IsFree mysql) m
        → Calm (IsUnlocked {Srv = Srv} {Net = Net}) (on_db m)
    on_db-Calm m c = record { at = λ s h. kept s h (m s.db) (c.at s.db h.0) }
      where
        kept :
            (s : StatusService Srv Net)
            → IsUnlocked s
            → (r : Outcome (DatabaseManager Srv) A) → Settles (IsFree mysql) r
            → Settles IsUnlocked (elim r [
              | done a t ↦ done a (record s { db = t })
              | thrown t ↦ thrown (record s { db = t })
              | blocked ↦ blocked
            ])
        kept s h (done a t) p = (p, h.1)
        kept s h (thrown t) p = (p, h.1)
        kept s h blocked p = p

    pub on_redis-Calm :
        (m : Exec (RedisManager Net) A)
        → Calm IsReady m
        → Calm (IsUnlocked {Srv = Srv} {Net = Net}) (on_redis m)
    on_redis-Calm m c = record { at = λ s h. kept s h (m s.redis) (c.at s.redis h.1) }
      where
        kept :
            (s : StatusService Srv Net)
            → IsUnlocked s
            → (r : Outcome (RedisManager Net) A) → Settles IsReady r
            → Settles IsUnlocked (elim r [
              | done a t ↦ done a (record s { redis = t })
              | thrown t ↦ thrown (record s { redis = t })
              | blocked ↦ blocked
            ])
        kept s h (done a t) p = (h.0, p)
        kept s h (thrown t) p = (h.0, p)
        kept s h blocked p = p

  pub update_user_status_in_db-Calm :
      (user_id : ℤ) (st : UserStatus) (token : String)
      → Calm
          (IsUnlocked {Srv = Srv} {Net = Net})
          (on_db (update_user_status_in_db mysql user_id st token))
  unfolding update_user_status_in_db
  update_user_status_in_db-Calm user_id st token =
      on_db-Calm _ (with_connection-IsFree mysql false _ (call-IsHeld mysql _))

  pub add_friend_to_db-Calm :
      (user_id friend_id : ℤ)
      → Calm (IsUnlocked {Srv = Srv} {Net = Net}) (on_db (add_friend_to_db mysql user_id friend_id))
  unfolding add_friend_to_db
  add_friend_to_db-Calm user_id friend_id =
      on_db-Calm _ (with_connection-IsFree mysql false _ (call-IsHeld mysql _))

  pub friend_exists_in_db-Calm :
      (user_id friend_id : ℤ)
      → Calm
          (IsUnlocked {Srv = Srv} {Net = Net})
          (on_db (friend_exists_in_db mysql results user_id friend_id))
  unfolding friend_exists_in_db
  friend_exists_in_db-Calm user_id friend_id = on_db-Calm _ (
      selecting-IsFree mysql results false _ _
        (from_row-IsHeld mysql results (λ r. counts_some (column_of r))))

  pub get_friends_ids-Calm :
      (user_id : ℤ)
      → Calm (IsUnlocked {Srv = Srv} {Net = Net}) (on_db (get_friends_ids mysql results user_id))
  unfolding get_friends_ids
  get_friends_ids-Calm user_id =
      on_db-Calm _ (selecting-IsFree mysql results [] _ _ (from_rows-IsHeld mysql results ids_of))

  pub get_user_status_from_db-Calm :
      (user_id : ℤ)
      → Calm
          (IsUnlocked {Srv = Srv} {Net = Net})
          (on_db (get_user_status_from_db mysql results user_id))
  unfolding get_user_status_from_db
  get_user_status_from_db-Calm user_id = on_db-Calm _ (
      selecting-IsFree mysql results none _ _
        (from_row-IsHeld mysql results (λ r. some (status_of_row r))))
