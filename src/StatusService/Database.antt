-- ===== src/StatusService/Database.antt =====
-- The database's part of Services/StatusServer/status_service_impl.cpp. A result set is stored by
-- `store_result`; its rows are lists of columns, with `none` for a null pointer.
use Prim.Native.String.{◌++◌}
use qt_web_server_chat.Base.{
  suc, String, Bool, true, false, Option, none, some, List, [], ◌∷◌, ◌==◌, if◌then◌else◌, ℤ, pos,
  to_string, stoi, Exec, pure, throw, ◌>>=◌,
}
use qt_web_server_chat.DatabaseManager.{Mysql, DatabaseManager, locking, call, when_available}

abbrev pub Row : Type 0
Row = List (Option String)

-- `fetch_rows` lists what the calls of mysql_fetch_row return up to the first null pointer.
pub record Results (Srv : Type 0) : Type 0 where
  pub store_result : Srv → Bool × Srv
  pub fetch_row : Srv → Option Row × Srv
  pub fetch_rows : Srv → List Row × Srv
  pub free_result : Srv → Srv

-- status::UserStatus; another number of the request's open enumeration is `unrecognized`.
pub data UserStatus : Type 0 where
  offline online away busy : UserStatus
  unrecognized : ℤ → UserStatus

unfoldable pub status_text : UserStatus → String
status_text offline = "OFFLINE"
status_text online = "ONLINE"
status_text away = "AWAY"
status_text busy = "BUSY"
status_text (unrecognized n) = "OFFLINE"

unfoldable pub parse_status : String → UserStatus
parse_status s =
    if s == "ONLINE"
    then online
    else if s == "AWAY"
    then away
    else if s == "BUSY"
    then busy
    else offline

-- row[0], of a row with a column at least
abbrev pub column : Row → Option String
column [] = none
column (c ∷ cs) = c

abbrev pub column_of : Option Row → Option String
column_of none = none
column_of (some r) = column r

abbrev pub is_positive : ℤ → Bool
is_positive (pos (suc n)) = true
is_positive n = false

-- `row && row[0] && std::stoi(row[0]) > 0`; the exception of stoi is `none`.
abbrev pub counts_some : Option String → Option Bool
counts_some none = some false
counts_some (some c) = elim (stoi c) [ none ↦ none | some n ↦ some (is_positive n) ]

-- The loop of getFriendsIds; the exception of stoi is `none`.
unfoldable pub ids_of : List Row → Option (List ℤ)
ids_of [] = some []
ids_of (r ∷ rs) =
    let rest = ids_of rs in
    elim (column r) [
      | none ↦ rest
      | some c ↦ elim (stoi c) [
        | none ↦ none
        | some n ↦ elim rest [ none ↦ none | some ns ↦ some (n ∷ ns) ]
      ]
    ]

abbrev pub token_matches : String → Option String → Bool
token_matches token none = false
token_matches token (some c) = token == c

-- The status in a row: a null column is OFFLINE, no row is `none`.
abbrev pub status_of_row : Option Row → Option UserStatus
status_of_row none = none
status_of_row (some r) = some (elim (column r) [ none ↦ offline | some c ↦ parse_status c ])

unfoldable pub update_query : ℤ → UserStatus → String → String
unfolding status_text
update_query user_id st session_token =
    "INSERT INTO user_status (user_id, status, last_seen, session_token) VALUES ("
    ++ to_string user_id
    ++ ", '"
    ++ status_text st
    ++ "', NOW(), '"
    ++ session_token
    ++ "') ON DUPLICATE KEY UPDATE status = '"
    ++ status_text st
    ++ "', last_seen = NOW(), session_token = '"
    ++ session_token
    ++ "'"

module _ {Srv : Type 0} (mysql : Mysql Srv) {A : Type 0} where
  -- The database's mutex, the test of the connection and the null pointer check.
  unfoldable pub with_connection : A → Exec (DatabaseManager Srv) A → Exec (DatabaseManager Srv) A
  unfolding when_available
  with_connection failed body =
      locking (when_available mysql failed (λ s. if s.connection then body s else pure failed s))

module _ {Srv : Type 0} (mysql : Mysql Srv) (results : Results Srv) {A : Type 0} where
  -- A query and its stored result; unlike DatabaseManager's own queries, a failure marks nothing.
  unfoldable pub selecting :
      A → String → Exec (DatabaseManager Srv) A → Exec (DatabaseManager Srv) A
  unfolding with_connection
  selecting failed sql body = with_connection mysql failed (
      call (mysql.query sql) >>= λ good.
      if good
      then (call results.store_result >>= λ got. if got then body else pure failed)
      else pure failed)

module _ {Srv : Type 0} (results : Results Srv) {A : Type 0} where
  -- What is read from the first row, after the result is freed; `none` is an exception, which
  -- leaves the result.
  unfoldable pub from_row : (Option Row → Option A) → Exec (DatabaseManager Srv) A
  from_row read = call results.fetch_row >>= λ r. elim (read r) [
    | none ↦ throw
    | some a ↦ (λ s. pure a (record s { srv = results.free_result s.srv }))
  ]

  -- The same for all rows.
  unfoldable pub from_rows : (List Row → Option A) → Exec (DatabaseManager Srv) A
  from_rows read = call results.fetch_rows >>= λ rs. elim (read rs) [
    | none ↦ throw
    | some a ↦ (λ s. pure a (record s { srv = results.free_result s.srv }))
  ]

module _ {Srv : Type 0} (mysql : Mysql Srv) where
  unfoldable pub update_user_status_in_db :
      ℤ → UserStatus → String → Exec (DatabaseManager Srv) Bool
  unfolding with_connection update_query
  update_user_status_in_db user_id st session_token =
      with_connection mysql false (call (mysql.query (update_query user_id st session_token)))

  unfoldable pub add_friend_to_db : ℤ → ℤ → Exec (DatabaseManager Srv) Bool
  unfolding with_connection
  add_friend_to_db user_id friend_id = with_connection mysql false (
      call (
        mysql.query (
          "INSERT IGNORE INTO user_friends (user_id, friend_id) VALUES ("
          ++ to_string user_id
          ++ ", "
          ++ to_string friend_id
          ++ ")")))

module _ {Srv : Type 0} (mysql : Mysql Srv) (results : Results Srv) where
  unfoldable pub validate_session_token : ℤ → String → Exec (DatabaseManager Srv) Bool
  unfolding selecting from_row
  validate_session_token user_id token =
      selecting mysql results false
        ("SELECT session_token FROM user_status WHERE user_id = " ++ to_string user_id)
        (from_row results (λ r. some (token_matches token (column_of r))))

  unfoldable pub get_friends_ids : ℤ → Exec (DatabaseManager Srv) (List ℤ)
  unfolding selecting from_rows ids_of
  get_friends_ids user_id =
      selecting mysql results []
        ("SELECT friend_id FROM user_friends WHERE user_id = " ++ to_string user_id)
        (from_rows results ids_of)

  -- last_seen is the present time, whatever the row says.
  unfoldable pub get_user_status_from_db : ℤ → Exec (DatabaseManager Srv) (Option UserStatus)
  unfolding selecting from_row parse_status
  get_user_status_from_db user_id =
      selecting mysql results none
        ("SELECT status, last_seen FROM user_status WHERE user_id = " ++ to_string user_id)
        (from_row results (λ r. some (status_of_row r)))

  unfoldable pub friend_exists_in_db : ℤ → ℤ → Exec (DatabaseManager Srv) Bool
  unfolding selecting from_row
  friend_exists_in_db user_id friend_id =
      selecting mysql results false
        ("SELECT COUNT(*) FROM user_friends WHERE user_id = "
          ++ to_string user_id
          ++ " AND friend_id = "
          ++ to_string friend_id)
        (from_row results (λ r. counts_some (column_of r)))
