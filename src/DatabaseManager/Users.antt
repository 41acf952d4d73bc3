-- ===== src/DatabaseManager/Users.antt =====
-- The users' queries of Services/utils/database_manager.cpp. `sha256` is OpenSSL's, of
-- Services/utils/crypto_utils.cpp.
use Prim.Native.String.{◌++◌}
use mathlib.Core.List
use qt_web_server_chat.Base.{
  ℕ, String, Bool, true, false, Option, none, some, List, [], ◌∷◌, if◌then◌else◌, Exec, pure, ◌>>=◌,
  ◌>>◌,
}
use qt_web_server_chat.DatabaseManager.{
  Value, long, text, Fetch, row, truncated, no_data, failure, Mysql, DatabaseManager, locking, call,
  mark_unhealthy, stmt_close, or_abandon, with_statement, when_available,
}

-- `mysql_stmt_fetch(stmt) == 0`
abbrev pub is_row : Fetch → Bool
is_row (row vs) = true
is_row f = false

-- The id and the password columns of a row.
abbrev pub user_columns : List Value → Option (ℕ × String)
user_columns (long id ∷ text password ∷ []) = some (id, password)
user_columns vs = none

-- The columns of a search result.
abbrev pub name_columns : List Value → List (ℕ × String)
name_columns (long id ∷ text name ∷ []) = (id, name) ∷ []
name_columns vs = []

-- The loop of searchUsers, which ends at the first call that does not return 0.
unfoldable pub collect_users : List Fetch → List (ℕ × String)
collect_users [] = []
collect_users (row vs ∷ rest) = List.◌++◌ (name_columns vs) (collect_users rest)
collect_users (f ∷ rest) = []

-- The text of createUser's statement.
unfoldable pub insert_query : String → String → String → String
insert_query username password_hash email =
    "INSERT INTO users (username, password, email) VALUES ('" ++ username ++ "', '" ++ password_hash
    ++ "', '" ++ email ++ "')"

abbrev pub exists_sql : String
exists_sql = "SELECT id FROM users WHERE username = ? LIMIT 1"

abbrev pub find_sql : String
find_sql = "SELECT id, password FROM users WHERE username = ?"

abbrev pub search_sql : String
search_sql = "SELECT id, username FROM users WHERE username LIKE ? LIMIT ?"

module _ {Srv : Type 0} (mysql : Mysql Srv) where
  -- userExistsNoLock
  unfoldable pub user_exists_no_lock : String → Exec (DatabaseManager Srv) Bool
  unfolding when_available with_statement stmt_close
  user_exists_no_lock username = when_available mysql false (
      with_statement mysql false exists_sql (text username ∷ []) (
        or_abandon mysql false mysql.stmt_execute
          (call mysql.stmt_fetch >>= λ fetched. stmt_close mysql >> pure (is_row fetched))))

  unfoldable pub user_exists : String → Exec (DatabaseManager Srv) Bool
  unfolding user_exists_no_lock
  user_exists username = locking (user_exists_no_lock username)

  -- The new user's id is the output argument.
  unfoldable pub insert_user :
      (String → String) → String → String → String → Exec (DatabaseManager Srv) (Option ℕ)
  unfolding mark_unhealthy insert_query
  insert_user sha256 username password email =
      call (mysql.query (insert_query username (sha256 password) email)) >>= λ good.
      if good then (λ s. pure (some (mysql.insert_id s.srv)) s) else (mark_unhealthy >> pure none)

  unfoldable pub create_user :
      (String → String) → String → String → String → Exec (DatabaseManager Srv) (Option ℕ)
  unfolding when_available user_exists_no_lock insert_user
  create_user sha256 username password email = locking (
      when_available mysql none (
        user_exists_no_lock username >>= λ taken.
        if taken then pure none else insert_user sha256 username password email))

  -- What follows the fetch of getUserByUsername. A truncated row is used as it is.
  unfoldable pub finish_user : Fetch → Exec (DatabaseManager Srv) (Option (ℕ × String))
  unfolding stmt_close mark_unhealthy
  finish_user (row vs) = stmt_close mysql >> pure (user_columns vs)
  finish_user (truncated vs) = stmt_close mysql >> pure (user_columns vs)
  finish_user no_data = stmt_close mysql >> pure none
  finish_user failure = stmt_close mysql >> (mark_unhealthy >> pure none)

  unfoldable pub get_user_by_username : String → Exec (DatabaseManager Srv) (Option (ℕ × String))
  unfolding when_available with_statement finish_user
  get_user_by_username username = locking (
      when_available mysql none (
        with_statement mysql none find_sql (text username ∷ []) (
          or_abandon mysql none mysql.stmt_bind_result
            (or_abandon mysql none mysql.stmt_execute (call mysql.stmt_fetch >>= finish_user)))))

  unfoldable pub search_users : String → ℕ → Exec (DatabaseManager Srv) (List (ℕ × String))
  unfolding when_available with_statement stmt_close collect_users
  search_users query limit = locking (
      when_available mysql [] (
        with_statement mysql [] search_sql (text (query ++ "%") ∷ long limit ∷ []) (
          or_abandon mysql [] mysql.stmt_bind_result (
            or_abandon mysql [] mysql.stmt_execute (
              call mysql.stmt_fetch_all >>= λ fetched.
              stmt_close mysql >> pure (collect_users fetched))))))
