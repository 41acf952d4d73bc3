-- ===== src/DatabaseManager/Queries.antt =====
-- Calls of the query methods of Services/utils/database_manager.cpp.
use qt_web_server_chat.Base.{ℕ, ◌≡◌, String, false, Exec, pure, ◌>>=◌, Returns, Triple, Triple-bind}
use qt_web_server_chat.DatabaseManager.{Mysql, DatabaseManager}
use qt_web_server_chat.DatabaseManager.Users.{
  user_exists, create_user, get_user_by_username, search_users,
}
use qt_web_server_chat.DatabaseManager.Messages.{store_message, get_message_history}
use qt_web_server_chat.DatabaseManager.Statements.{
  Counts, create_user-Open, get_user_by_username-Open, user_exists-Open, search_users-Open,
  store_message-Open, get_message_history-Open,
}

-- A call of one of the query methods.
pub data Query : Type 0 where
  creates : String → String → String → Query
  finds exists : String → Query
  searches : String → ℕ → Query
  stores : ℕ → ℕ → String → Query
  reads : ℕ → ℕ → ℕ → Query

abbrev pub ignoring : {S A : Type 0} → Exec S A → Exec S (Unit {0})
ignoring m = m >>= λ a. pure tt

unfoldable pub run_query :
    {Srv : Type 0} → Mysql Srv → (String → String) → Query → Exec (DatabaseManager Srv) (Unit {0})
run_query mysql sha256 (creates name password email) =
    ignoring (create_user mysql sha256 name password email)
run_query mysql sha256 (finds name) = ignoring (get_user_by_username mysql name)
run_query mysql sha256 (exists name) = ignoring (user_exists mysql name)
run_query mysql sha256 (searches query limit) = ignoring (search_users mysql query limit)
run_query mysql sha256 (stores sender receiver content) =
    ignoring (store_message mysql sender receiver content)
run_query mysql sha256 (reads user friend limit) =
    ignoring (get_message_history mysql user friend limit)

module _ {Srv : Type 0} (mysql : Mysql Srv) (open_statements : Srv → ℕ)
    (counts : Counts mysql open_statements) where
  abbrev Clean : ℕ → DatabaseManager Srv → Type 0
  Clean n t = (t.locked ≡ false) × (open_statements t.srv ≡ n)

  ignored :
      {A : Type 0} {n : ℕ} {m : Exec (DatabaseManager Srv) A}
      → Triple (Clean n) m (Clean n)
      → (s : DatabaseManager Srv) → s.locked ≡ false
      → open_statements s.srv ≡ n
      → Returns (Clean n) (ignoring m s)
  ignored {n} t s free same =
      (Triple-bind {R = Clean n} {Q = Clean n} t (λ a. record { at = λ x h. h })).at s (free, same)

  -- Every query method, called with the mutex free, returns with the mutex free, on every path, and
  -- with as many statements open as before, whatever the server answers; so createUser does not
  -- wait for its own mutex when it checks the name. It is assumed that the library's calls change
  -- the number of open statements as documented.
  pub run_query-Open :
      (sha256 : String → String) (q : Query) (n : ℕ) (s : DatabaseManager Srv)
      → s.locked ≡ false
      → open_statements s.srv ≡ n
      → Returns (λ t. (t.locked ≡ false) × (open_statements t.srv ≡ n)) (run_query mysql sha256 q s)
  unfolding run_query
  run_query-Open sha256 (creates name password email) n s free same =
      ignored (create_user-Open mysql open_statements counts n sha256 name password email) s free
        same
  run_query-Open sha256 (finds name) n s free same =
      ignored (get_user_by_username-Open mysql open_statements counts n name) s free same
  run_query-Open sha256 (exists name) n s free same =
      ignored (user_exists-Open mysql open_statements counts n name) s free same
  run_query-Open sha256 (searches query limit) n s free same =
      ignored (search_users-Open mysql open_statements counts n query limit) s free same
  run_query-Open sha256 (stores sender receiver content) n s free same =
      ignored (store_message-Open mysql open_statements counts n sender receiver content) s free
        same
  run_query-Open sha256 (reads user friend limit) n s free same =
      ignored (get_message_history-Open mysql open_statements counts n user friend limit) s free
        same
