-- ===== src/StatusService.antt =====
-- Services/StatusServer/status_service_impl.{h,cpp}: the user's status and the friends, in the
-- database and in the Redis cache. The results of plain queries, of the MySQL client library, are a
-- parameter. Times are given: `now` in milliseconds, read once for a request.
mod Database
mod Cache
pub mod Locks
pub mod CacheLocks
pub mod Requests
pub mod Friends
pub mod RoundTrip
pub mod Answers
mod Tests
use Prim.Native.String.{◌++◌}
unfoldable pub use Database.*
unfoldable pub use Cache.*
use qt_web_server_chat.Base.{
  ℕ, ◌*◌, ◌/◌, String, Bool, true, false, Option, none, some, List, [], ◌∷◌, if◌then◌else◌, ℤ,
  to_string, Exec, Outcome, done, thrown, blocked, pure, ◌>>=◌, ◌>>◌,
}
use qt_web_server_chat.DatabaseManager.{add_database_instance, Mysql, DatabaseManager}
use qt_web_server_chat.RedisManager.{initialize, Hiredis, RedisManager}

pub record StatusService (Srv Net : Type 0) : Type 0 where
  pub db : DatabaseManager Srv
  pub redis : RedisManager Net

-- UserStatusResponse and AddFriendResponse
pub record Response : Type 0 where
  pub success : Bool
  pub message : String

-- GetUserStatusResponse, with the protocol's default values where nothing is set.
pub record GetUserStatusResponse : Type 0 where
  pub success : Bool
  pub message : String
  pub user_status : UserStatus
  pub last_seen : ℕ

pub record FriendStatus : Type 0 where
  pub user_id : ℤ
  pub username : String
  pub user_status : UserStatus
  pub last_seen : ℕ

pub record FriendInfo : Type 0 where
  pub user_id : ℤ
  pub username : String

module _ {Srv Net : Type 0} where
  abbrev pub on_db : {A : Type 0} → Exec (DatabaseManager Srv) A → Exec (StatusService Srv Net) A
  on_db m s = elim (m s.db) [
    | done a t ↦ done a (record s { db = t })
    | thrown t ↦ thrown (record s { db = t })
    | blocked ↦ blocked
  ]

  abbrev pub on_redis : {A : Type 0} → Exec (RedisManager Net) A → Exec (StatusService Srv Net) A
  on_redis m s = elim (m s.redis) [
    | done a t ↦ done a (record s { redis = t })
    | thrown t ↦ thrown (record s { redis = t })
    | blocked ↦ blocked
  ]

abbrev pub friend_name : ℤ → String
friend_name id = "user_" ++ to_string id

abbrev pub friend_info : ℤ → FriendInfo
friend_info id = record { user_id = id; username = friend_name id }

abbrev pub friend_infos : List ℤ → List FriendInfo
friend_infos [] = []
friend_infos (id ∷ ids) = friend_info id ∷ friend_infos ids

-- `std::time(nullptr) * 1000`
abbrev pub whole_seconds : ℕ → ℕ
whole_seconds now = now / 1000 * 1000

abbrev pub friend_status : ℕ → ℤ → UserStatus → FriendStatus
friend_status now id st = record {
  user_id = id;
  username = friend_name id;
  user_status = st;
  last_seen = whole_seconds now;
}

abbrev pub update_answer : Bool → Response
update_answer true = record { success = true; message = "User status updated successfully" }
update_answer false = record {
  success = false;
  message = "Failed to update user status in database";
}

abbrev pub cached_answer : ℕ → UserStatus → GetUserStatusResponse
cached_answer now st = record {
  success = true;
  message = "User status retrieved from cache";
  user_status = st;
  last_seen = whole_seconds now;
}

abbrev pub stored_answer : ℕ → Option UserStatus → GetUserStatusResponse
stored_answer now (some st) = record {
  success = true;
  message = "User status retrieved successfully";
  user_status = st;
  last_seen = now;
}
stored_answer now none = record {
  success = false;
  message = "User not found";
  user_status = offline;
  last_seen = 0;
}

abbrev pub add_friend_answer : Bool → Response
add_friend_answer true = record { success = true; message = "Friend added successfully" }
add_friend_answer false = record {
  success = false;
  message = "Failed to add friend relationship to database";
}

abbrev pub already_friends : Response
already_friends = record { success = false; message = "Friend relationship already exists" }

module _ {Srv Net : Type 0} (mysql : Mysql Srv) (results : Results Srv)
    (hiredis : Hiredis Net) where
  -- The constructor.
  unfoldable pub construct : Exec (StatusService Srv Net) (Unit {0})
  unfolding add_database_instance initialize
  construct =
      on_db (add_database_instance "localhost" 3307 2)
      >> (on_redis (initialize hiredis "localhost" 6379 10) >> pure tt)

  -- UpdateUserStatus: the cache is written whether or not the database was.
  unfoldable pub update_user_status :
      ℕ → ℤ → UserStatus → String → Exec (StatusService Srv Net) Response
  unfolding update_user_status_in_db update_user_status_in_cache
  update_user_status now user_id st session_token =
      on_db (update_user_status_in_db mysql user_id st session_token) >>= λ stored.
      on_redis (update_user_status_in_cache hiredis now user_id st session_token)
      >> pure (update_answer stored)

  unfoldable pub get_user_status : ℕ → ℤ → Exec (StatusService Srv Net) GetUserStatusResponse
  unfolding get_user_status_from_cache get_user_status_from_db
  get_user_status now user_id = on_redis (get_user_status_from_cache hiredis user_id) >>= λ cached.
      elim cached [
        | some (st, token) ↦ pure (cached_answer now st)
        | none ↦
            (on_db (get_user_status_from_db mysql results user_id) >>= λ stored.
            pure (stored_answer now stored))
      ]

  -- The status of one friend in the loop of GetFriendsStatus; `none` skips the friend.
  unfoldable pub status_of_friend : ℕ → ℤ → Exec (StatusService Srv Net) (Option UserStatus)
  unfolding get_user_status_from_cache get_user_status_from_db update_user_status_in_cache
  status_of_friend now friend_id =
      on_redis (get_user_status_from_cache hiredis friend_id) >>= λ cached. elim cached [
        | some (st, token) ↦ pure (some st)
        | none ↦
            (on_db (get_user_status_from_db mysql results friend_id) >>= λ stored. elim stored [
              | some st ↦
                  (on_redis (update_user_status_in_cache hiredis now friend_id st "")
                    >> pure (some st))
              | none ↦ pure none
            ])
      ]

  -- The loop of GetFriendsStatus.
  unfoldable pub statuses_of_friends : ℕ → List ℤ → Exec (StatusService Srv Net) (List FriendStatus)
  unfolding status_of_friend
  statuses_of_friends now [] = pure []
  statuses_of_friends now (id ∷ ids) = status_of_friend now id >>= λ found.
      statuses_of_friends now ids >>= λ rest.
      pure (elim found [ some st ↦ friend_status now id st ∷ rest | none ↦ rest ])

  -- The list of friends: the cached one, or the stored one, which is then cached.
  unfoldable pub friends_of : ℤ → Exec (StatusService Srv Net) (List ℤ)
  unfolding get_cached_friends_list get_friends_ids cache_friends_list
  friends_of user_id = on_redis (get_cached_friends_list hiredis user_id) >>= λ cached.
      elim cached [
        | some ids ↦ pure ids
        | none ↦
            (on_db (get_friends_ids mysql results user_id) >>= λ ids.
            on_redis (cache_friends_list hiredis user_id ids) >> pure ids)
      ]

  -- The answer always says success.
  unfoldable pub get_friends_status : ℕ → ℤ → Exec (StatusService Srv Net) (List FriendStatus)
  unfolding friends_of statuses_of_friends
  get_friends_status now user_id = friends_of user_id >>= statuses_of_friends now

  unfoldable pub add_friend : ℤ → ℤ → Exec (StatusService Srv Net) Response
  unfolding friend_exists_in_db add_friend_to_db
  add_friend user_id friend_id =
      on_db (friend_exists_in_db mysql results user_id friend_id) >>= λ friends.
      if friends
      then pure already_friends
      else (on_db (add_friend_to_db mysql user_id friend_id) >>= λ added.
          if added
          then (on_db (add_friend_to_db mysql friend_id user_id) >>= λ both.
              pure (add_friend_answer both))
          else pure (add_friend_answer false))

  -- The answer always says success.
  unfoldable pub get_friends_list : ℤ → Exec (StatusService Srv Net) (List FriendInfo)
  unfolding get_friends_ids
  get_friends_list user_id =
      on_db (get_friends_ids mysql results user_id) >>= λ ids. pure (friend_infos ids)
