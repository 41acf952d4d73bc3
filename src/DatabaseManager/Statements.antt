-- ===== src/DatabaseManager/Statements.antt =====
-- Prepared statements and the mutex in the queries of Services/utils/database_manager.cpp, method
-- by method.
use Prim.Native.String.{◌++◌}
use qt_web_server_chat.Base.{
  ℕ, suc, ◌-◌, ◌≡◌, refl, ◌∙◌, String, Bool, true, false, Option, none, some, List, [], ◌∷◌, arith,
  if◌then◌else◌, Outcome, done, Exec, pure, with_lock, unlock, thrown, blocked, ◌>>=◌, ◌>>◌,
  Returns, Triple, Triple-bind,
}
use qt_web_server_chat.LoadBalancer.{ServiceInstance, get_next_healthy_instance}
use qt_web_server_chat.DatabaseManager.{
  Value, long, text, Fetch, row, truncated, no_data, failure, Mysql, DatabaseManager, service_name,
  locking, call, is_connected_impl, connect_to, connect_impl, available, stmt_close, or_abandon,
  with_statement, when_available,
}
use qt_web_server_chat.DatabaseManager.Users.{
  exists_sql, find_sql, search_sql, is_row, user_columns, collect_users, user_exists_no_lock,
  user_exists, insert_query, insert_user, create_user, finish_user, get_user_by_username,
  search_users,
}
use qt_web_server_chat.DatabaseManager.Messages.{
  store_sql, history_sql, collect_messages, store_message, get_message_history,
}

-- The documented effect of the library's calls on the number of open statements.
pub record Counts {Srv : Type 0} (mysql : Mysql Srv) (open_statements : Srv → ℕ) : Type 0 where
  pub init : (v : Srv) → open_statements (mysql.init v).1 ≡ open_statements v
  pub real_connect :
      (host : String) (port : ℕ) (v : Srv)
      → open_statements (mysql.real_connect host port v).1 ≡ open_statements v
  pub close : (v : Srv) → open_statements (mysql.close v) ≡ open_statements v
  pub ping : (v : Srv) → open_statements (mysql.ping v).1 ≡ open_statements v
  pub query : (q : String) (v : Srv) → open_statements (mysql.query q v).1 ≡ open_statements v
  pub stmt_init :
      (v : Srv)
      → open_statements (mysql.stmt_init v).1
        ≡ (if (mysql.stmt_init v).0 then suc (open_statements v) else open_statements v)
  pub stmt_prepare :
      (q : String) (v : Srv) → open_statements (mysql.stmt_prepare q v).1 ≡ open_statements v
  pub stmt_bind_param :
      (vs : List Value) (v : Srv)
      → open_statements (mysql.stmt_bind_param vs v).1 ≡ open_statements v
  pub stmt_bind_result :
      (v : Srv) → open_statements (mysql.stmt_bind_result v).1 ≡ open_statements v
  pub stmt_execute : (v : Srv) → open_statements (mysql.stmt_execute v).1 ≡ open_statements v
  pub stmt_fetch : (v : Srv) → open_statements (mysql.stmt_fetch v).1 ≡ open_statements v
  pub stmt_fetch_all : (v : Srv) → open_statements (mysql.stmt_fetch_all v).1 ≡ open_statements v
  pub stmt_close : (v : Srv) → open_statements (mysql.stmt_close v) ≡ open_statements v - 1

module _ {Srv : Type 0} (mysql : Mysql Srv) (open_statements : Srv → ℕ)
    (counts : Counts mysql open_statements) where
  -- The number of open statements, with the mutex held or free.
  abbrev pub Open : Bool → ℕ → DatabaseManager Srv → Type 0
  Open held n s = (s.locked ≡ held) × (open_statements s.srv ≡ n)

  connect_to-Open :
      (n : ℕ) (o : Option ServiceInstance) → Triple (Open true n) (connect_to mysql o) (Open true n)
  unfolding connect_to
  connect_to-Open n none = record { at = λ s h. ground arith }
  connect_to-Open n (some i) = record {
    at = λ s h. ground (
      arith,
      counts.init s.srv,
      counts.real_connect i.host i.port (mysql.init s.srv).1,
      counts.close (mysql.real_connect i.host i.port (mysql.init s.srv).1).1,
    );
  }

  available-Open : (n : ℕ) → Triple (Open true n) (available mysql) (Open true n)
  unfolding available is_connected_impl connect_impl
  available-Open n = record {
    at = λ s h.
        let next =
          get_next_healthy_instance (λ lo hi. lo) s.load_balancer service_name "round_robin" in
        ground (
          arith,
          counts.ping s.srv,
          (connect_to-Open n next.0).at (record s { load_balancer = next.1 }),
        );
  }

  -- Parts of a method that run with one statement more, up to its end.
  module _ {A : Type 0} where
    or_abandon-Open :
        (n : ℕ) (failed : A) (f : Srv → Bool × Srv) {rest : Exec (DatabaseManager Srv) A}
        → ((v : Srv) → open_statements (f v).1 ≡ open_statements v)
        → Triple (Open true (suc n)) rest (Open true n)
        → Triple (Open true (suc n)) (or_abandon mysql failed f rest) (Open true n)
    unfolding or_abandon
    or_abandon-Open n failed f same t = record {
      at = λ s h.
          ground (
            arith,
            same s.srv,
            counts.stmt_close (f s.srv).1,
            t.at (record s { srv = (f s.srv).1 }),
          );
    }

    with_statement-Open :
        (n : ℕ) (failed : A) (sql : String) (params : List Value)
        {rest : Exec (DatabaseManager Srv) A}
        → Triple (Open true (suc n)) rest (Open true n)
        → Triple (Open true n) (with_statement mysql failed sql params rest) (Open true n)
    unfolding with_statement
    with_statement-Open n failed sql params {rest} t = record {
      at = λ s h. ground (
        arith,
        counts.stmt_init s.srv,
        prepared.at (record s { srv = (mysql.stmt_init s.srv).1 }),
      );
    }
      where
        prepared :
            Triple
              (Open true (suc n))
              (or_abandon mysql failed
                (mysql.stmt_prepare sql)
                (or_abandon mysql failed (mysql.stmt_bind_param params) rest))
              (Open true n)
        prepared = or_abandon-Open n failed (mysql.stmt_prepare sql) (counts.stmt_prepare sql) (
            or_abandon-Open n failed (mysql.stmt_bind_param params) (counts.stmt_bind_param params)
              t)

    when_available-Open :
        (n : ℕ) (failed : A) {body : Exec (DatabaseManager Srv) A}
        → Triple (Open true n) body (Open true n)
        → Triple (Open true n) (when_available mysql failed body) (Open true n)
    unfolding when_available
    when_available-Open n failed {body} t = Triple-bind (available-Open n) branch
      where
        branch : (up : Bool) → Triple (Open true n) (if up then body else pure failed) (Open true n)
        branch true = t
        branch false = record { at = λ s h. h }

    locking-Open :
        (n : ℕ) {m : Exec (DatabaseManager Srv) A}
        → Triple (Open true n) m (Open true n)
        → Triple (Open false n) (locking m) (Open false n)
    locking-Open n {m} t = record {
      at = λ s h.
          rw (h.0, with_lock)
            (freed (m (record s { locked = true }))
              (t.at (record s { locked = true }) (refl, h.1)));
    }
      where
        freed :
            (r : Outcome (DatabaseManager Srv) A)
            → Returns (Open true n) r
            → Returns
                (Open false n)
                (unlock (λ (x : DatabaseManager Srv). record x { locked = false }) r)
        freed (done a x) p = (refl, p.1)
        freed (thrown x) p = p
        freed blocked p = p

  -- Closing the statement ends the part with one statement more.
  close-Open :
      {A : Type 0} (n : ℕ) (a : A)
      → Triple (Open true (suc n)) (stmt_close mysql >> pure a) (Open true n)
  unfolding stmt_close
  close-Open n a = record { at = λ s h. ground (arith, counts.stmt_close s.srv) }

  call-Open :
      {A B : Type 0} (n : ℕ) (f : Srv → A × Srv) {rest : A → Exec (DatabaseManager Srv) B}
      → ((v : Srv) → open_statements (f v).1 ≡ open_statements v)
      → ((a : A) → Triple (Open true (suc n)) (rest a) (Open true n))
      → Triple (Open true (suc n)) (call f >>= rest) (Open true n)
  call-Open n f same t = record {
    at = λ s h. (t (f s.srv).0).at (record s { srv = (f s.srv).1 }) (h.0, same s.srv ∙ h.1);
  }

  user_exists_no_lock-Open :
      (n : ℕ) (name : String) → Triple (Open true n) (user_exists_no_lock mysql name) (Open true n)
  unfolding user_exists_no_lock
  user_exists_no_lock-Open n name = when_available-Open n false (
      with_statement-Open n false exists_sql (text name ∷ []) (
        or_abandon-Open n false mysql.stmt_execute counts.stmt_execute (
          call-Open n mysql.stmt_fetch counts.stmt_fetch λ fetched. close-Open n (is_row fetched))))

  pub user_exists-Open :
      (n : ℕ) (name : String) → Triple (Open false n) (user_exists mysql name) (Open false n)
  unfolding user_exists
  user_exists-Open n name = locking-Open n (user_exists_no_lock-Open n name)

  insert_user-Open :
      (n : ℕ) (sha256 : String → String) (name password email : String)
      → Triple (Open true n) (insert_user mysql sha256 name password email) (Open true n)
  unfolding insert_user
  insert_user-Open n sha256 name password email = record {
    at = λ s h. ground (arith, counts.query (insert_query name (sha256 password) email) s.srv);
  }

  pub create_user-Open :
      (n : ℕ) (sha256 : String → String) (name password email : String)
      → Triple (Open false n) (create_user mysql sha256 name password email) (Open false n)
  unfolding create_user
  create_user-Open n sha256 name password email =
      locking-Open n
        (when_available-Open n none (Triple-bind (user_exists_no_lock-Open n name) branch))
    where
      branch :
          (taken : Bool)
          → Triple
              (Open true n)
              (if taken then pure none else insert_user mysql sha256 name password email)
              (Open true n)
      branch true = record { at = λ s h. h }
      branch false = insert_user-Open n sha256 name password email

  finish_user-Open :
      (n : ℕ) (fetched : Fetch)
      → Triple (Open true (suc n)) (finish_user mysql fetched) (Open true n)
  unfolding finish_user
  finish_user-Open n (row vs) = close-Open n (user_columns vs)
  finish_user-Open n (truncated vs) = close-Open n (user_columns vs)
  finish_user-Open n no_data = close-Open n none
  finish_user-Open n failure = record { at = λ s h. ground (arith, counts.stmt_close s.srv) }

  pub get_user_by_username-Open :
      (n : ℕ) (name : String)
      → Triple (Open false n) (get_user_by_username mysql name) (Open false n)
  unfolding get_user_by_username
  get_user_by_username-Open n name = locking-Open n (
      when_available-Open n none (
        with_statement-Open n none find_sql (text name ∷ []) (
          or_abandon-Open n none mysql.stmt_bind_result counts.stmt_bind_result (
            or_abandon-Open n none mysql.stmt_execute counts.stmt_execute
              (call-Open n mysql.stmt_fetch counts.stmt_fetch (finish_user-Open n))))))

  pub search_users-Open :
      (n : ℕ) (query : String) (limit : ℕ)
      → Triple (Open false n) (search_users mysql query limit) (Open false n)
  unfolding search_users
  search_users-Open n query limit = locking-Open n (
      when_available-Open n [] (
        with_statement-Open n [] search_sql (text (query ++ "%") ∷ long limit ∷ []) (
          or_abandon-Open n [] mysql.stmt_bind_result counts.stmt_bind_result (
            or_abandon-Open n [] mysql.stmt_execute counts.stmt_execute (
              call-Open n mysql.stmt_fetch_all counts.stmt_fetch_all
                λ fetched. close-Open n (collect_users fetched))))))

  pub store_message-Open :
      (n sender receiver : ℕ) (content : String)
      → Triple (Open false n) (store_message mysql sender receiver content) (Open false n)
  unfolding store_message
  store_message-Open n sender receiver content = locking-Open n (
      when_available-Open n false (
        with_statement-Open n false store_sql (long sender ∷ long receiver ∷ text content ∷ [])
          (or_abandon-Open n false mysql.stmt_execute counts.stmt_execute (close-Open n true))))

  pub get_message_history-Open :
      (n user friend limit : ℕ)
      → Triple (Open false n) (get_message_history mysql user friend limit) (Open false n)
  unfolding get_message_history
  get_message_history-Open n user friend limit = locking-Open n (
      when_available-Open n [] (
        with_statement-Open n [] history_sql
          (long user ∷ long friend ∷ long friend ∷ long user ∷ long limit ∷ [])
          (or_abandon-Open n [] mysql.stmt_bind_result counts.stmt_bind_result (
            or_abandon-Open n [] mysql.stmt_execute counts.stmt_execute (
              call-Open n mysql.stmt_fetch_all counts.stmt_fetch_all
                λ fetched. close-Open n (collect_messages fetched))))))
