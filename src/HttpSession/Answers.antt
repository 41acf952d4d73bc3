-- ===== src/HttpSession/Answers.antt =====
-- on_read of Services/GateServer/http_session.cpp: one answer to every request.
use Prim.Native.String.{◌++◌}
use qt_web_server_chat.Base.{
  ℕ, suc, ◌≡◌, ap, String, Bool, true, false, Option, none, some, List, [], ◌∷◌, arith, ◌==◌,
  if◌then◌else◌, length, Exec, Returns, Answers, Triple, Triple-bind, continue-Answers,
  relocate-Returns, Option-cases, Bool-cases, inl, inr, lookup, codes, ◌||◌, pure, ◌>>=◌,
}
use qt_web_server_chat.ConnectionManager.{get_online_users}
use qt_web_server_chat.DatabaseManager.{Mysql, DatabaseManager, is_connected, is_connected_impl}
use qt_web_server_chat.DatabaseManager.Users.{get_user_by_username, user_exists, create_user}
use qt_web_server_chat.DatabaseManager.Statements.{
  Counts, get_user_by_username-Open, user_exists-Open, create_user-Open,
}
use qt_web_server_chat.HttpSession.RateLimit.{is_allowed, max_requests, window_seconds}
use qt_web_server_chat.HttpSession.Request.{
  HttpSession, ok, bad_request, unauthorized, not_found, conflict, internal_server_error, on_db,
  on_connections, do_write, send_response, send_json_response, send_error_response,
  validate_rate_limit, validate_content_type, find_text,
}
use qt_web_server_chat.HttpSession.Handlers.{
  BoostJson, Readings, read_body, answer_login, log_in, handle_login, answer_register,
  create_account, register, handle_register, handle_health_check, dispatch, on_read,
}

module _ {Srv : Type 0} (open_statements : Srv → ℕ) where
  -- So many responses have been begun and so many statements are open, and no mutex is held.
  abbrev pub IsCalm : ℕ → ℕ → HttpSession Srv → Type 0
  IsCalm w n s =
      (length s.written ≡ w)
      × (s.db.locked ≡ false)
      × (open_statements s.db.srv ≡ n)
      × (s.connections.locked ≡ false)

  send-IsCalm :
      (w n status : ℕ) (content_type body : String)
      → Triple (IsCalm w n) (send_response status content_type body) (IsCalm (suc w) n)
  unfolding send_response do_write
  send-IsCalm w n status content_type body = record { at = λ s h. (ap suc h.0, h.1, h.2, h.3) }

  json-IsCalm :
      (w n status : ℕ) (json : String)
      → Triple (IsCalm w n) (send_json_response status json) (IsCalm (suc w) n)
  unfolding send_json_response
  json-IsCalm w n status json = send-IsCalm w n status "application/json" json

  error-IsCalm :
      (w n status : ℕ) (message : String)
      → Triple (IsCalm w n) (send_error_response status message) (IsCalm (suc w) n)
  unfolding send_error_response
  error-IsCalm w n status message = json-IsCalm w n status _

  on_db-IsCalm :
      {A : Type 0} (w n : ℕ) (m : Exec (DatabaseManager Srv) A)
      → Triple
          (λ t. (t.locked ≡ false) × (open_statements t.srv ≡ n))
          m
          (λ t. (t.locked ≡ false) × (open_statements t.srv ≡ n))
      → Triple (IsCalm w n) (on_db m) (IsCalm w n)
  on_db-IsCalm w n m k = record {
    at = λ s h.
        relocate-Returns (IsCalm w n) (λ t u. record u { db = t }) s (m s.db) (k.at s.db (h.1, h.2))
          (λ t p. (h.0, p.0, p.1, h.3));
  }

  -- Whether the request goes on, or has been answered.
  abbrev pub Goes : ℕ → ℕ → Bool → HttpSession Srv → Type 0
  Goes w n true t = IsCalm w n t
  Goes w n false t = IsCalm (suc w) n t

  validate_content_type-Goes :
      (w n : ℕ) (expected : String) (s : HttpSession Srv)
      → IsCalm w n s
      → Answers (Goes w n) (validate_content_type expected s)
  unfolding validate_content_type send_error_response send_json_response send_response do_write
  validate_content_type-Goes w n expected s h =
      elim (Option-cases (lookup "Content-Type" s.req.fields)) [
        | inl e ↦ rw (e, validate_content_type) (ap suc h.0, h.1, h.2, h.3)
        | inr (t, e) ↦ elim (Option-cases (find_text (codes expected) t)) [
          | inl f ↦ simp (e, f, validate_content_type) (ap suc h.0, h.1, h.2, h.3)
          | inr (p, f) ↦ simp (e, f, validate_content_type) h
        ]
      ]

  validate_rate_limit-Goes :
      (w n now : ℕ) (s : HttpSession Srv)
      → IsCalm w n s
      → Answers (Goes w n) (validate_rate_limit now s)
  unfolding validate_rate_limit send_error_response send_json_response send_response do_write
  validate_rate_limit-Goes w n now s h =
      elim (Bool-cases ((is_allowed s.limiter s.client_ip max_requests window_seconds now).0)) [
        | inl e ↦ rw (e, validate_rate_limit) h
        | inr e ↦ rw (e, validate_rate_limit) (ap suc h.0, h.1, h.2, h.3)
      ]

module _ {Srv V : Type 0} (mysql : Mysql Srv) (open_statements : Srv → ℕ)
    (counts : Counts mysql open_statements) (json : BoostJson V) (sha256 : String → String)
    (now : Readings) (w n : ℕ) where
  -- The handler answers once.
  abbrev Once : {A : Type 0} → Exec (HttpSession Srv) A → Type 0
  Once m = Triple (IsCalm open_statements w n) m (IsCalm open_statements (suc w) n)

  answer-Once : (status : ℕ) (body : String) → Once (send_json_response status body)
  answer-Once = json-IsCalm open_statements w n

  refuse-Once : (status : ℕ) (message : String) → Once (send_error_response status message)
  refuse-Once = error-IsCalm open_statements w n

  if-Once :
      (b : Bool) {m k : Exec (HttpSession Srv) (Unit {0})}
      → Once m
      → Once k
      → Once (if b then m else k)
  if-Once true h g = h
  if-Once false h g = g

  answer_login-Once :
      (password : String) (found : Option (ℕ × String))
      → Once (answer_login mysql json sha256 now password found)
  unfolding answer_login
  answer_login-Once password none = refuse-Once unauthorized "Invalid username or password"
  answer_login-Once password (some (id, hash)) =
      if-Once (sha256 password == hash) (answer-Once ok _)
        (refuse-Once unauthorized "Invalid username or password")

  log_in-Once : (fields : Option (List String)) → Once (log_in mysql json sha256 now fields)
  unfolding log_in
  log_in-Once none = refuse-Once bad_request "Invalid JSON format"
  log_in-Once (some []) = refuse-Once bad_request "Invalid JSON format"
  log_in-Once (some (u ∷ [])) = refuse-Once bad_request "Invalid JSON format"
  log_in-Once (some (username ∷ password ∷ [])) =
      Triple-bind
        (on_db-IsCalm open_statements w n (get_user_by_username mysql username)
          (get_user_by_username-Open mysql open_statements counts n username))
        (answer_login-Once password)
  log_in-Once (some (u ∷ p ∷ e ∷ rest)) = refuse-Once bad_request "Invalid JSON format"

  -- A handler that goes on behind the test of the content type.
  behind_content_type-Once :
      (expected : String) (m : Exec (HttpSession Srv) (Unit {0}))
      → Once m
      → Once (validate_content_type expected >>= λ valid. if valid then m else pure tt)
  behind_content_type-Once expected m h = record {
    at = λ s p.
        continue-Answers (Goes open_statements w n) (IsCalm open_statements (suc w) n)
          (validate_content_type expected s) _
          (validate_content_type-Goes open_statements w n expected s p)
          (elim [ true ↦ λ t q. h.at t q | false ↦ λ t q. q ]);
  }

  handle_login-Once : Once (handle_login mysql json sha256 now)
  unfolding handle_login
  handle_login-Once = behind_content_type-Once "application/json" _ (record {
    at = λ s. (log_in-Once (read_body json ("username" ∷ "password" ∷ []) s.req.body)).at s;
  })

  answer_register-Once : (id : Option ℕ) → Once (answer_register mysql json sha256 now id)
  unfolding answer_register
  answer_register-Once none = answer-Once internal_server_error _
  answer_register-Once (some id) = answer-Once ok _

  create_account-Once :
      (username password email : String)
      → Once (create_account mysql json sha256 now username password email)
  unfolding create_account
  create_account-Once username password email =
      Triple-bind
        (on_db-IsCalm open_statements w n (user_exists mysql username)
          (user_exists-Open mysql open_statements counts n username))
        λ taken. if-Once taken (answer-Once conflict _) (
          Triple-bind
            (on_db-IsCalm open_statements w n (create_user mysql sha256 username password email)
              (create_user-Open mysql open_statements counts n sha256 username password email))
            answer_register-Once)

  register-Once : (fields : Option (List String)) → Once (register mysql json sha256 now fields)
  unfolding register
  register-Once none = refuse-Once bad_request "Invalid JSON format"
  register-Once (some []) = refuse-Once bad_request "Invalid JSON format"
  register-Once (some (u ∷ [])) = refuse-Once bad_request "Invalid JSON format"
  register-Once (some (u ∷ p ∷ [])) = refuse-Once bad_request "Invalid JSON format"
  register-Once (some (username ∷ password ∷ email ∷ [])) =
      if-Once ((username == "") || (password == ""))
        (refuse-Once bad_request "Username and password are required")
        (create_account-Once username password email)
  register-Once (some (u ∷ p ∷ e ∷ f ∷ rest)) = refuse-Once bad_request "Invalid JSON format"

  handle_register-Once : Once (handle_register mysql json sha256 now)
  unfolding handle_register
  handle_register-Once = behind_content_type-Once "application/json" _ (record {
    at = λ s.
        (register-Once (read_body json ("username" ∷ "password" ∷ "email" ∷ []) s.req.body)).at s;
  })

  is_connected-Open :
      Triple
        (λ t. (t.locked ≡ false) × (open_statements t.srv ≡ n))
        (is_connected mysql)
        (λ t. (t.locked ≡ false) × (open_statements t.srv ≡ n))
  unfolding is_connected is_connected_impl
  is_connected-Open = record { at = λ s h. ground (arith, counts.ping s.srv) }

  online-IsCalm :
      Triple
        (IsCalm open_statements w n)
        (on_connections get_online_users)
        (IsCalm open_statements w n)
  unfolding get_online_users
  online-IsCalm = record { at = λ s h. ground arith }

  handle_health_check-Once : Once (handle_health_check mysql json sha256 now)
  unfolding handle_health_check
  handle_health_check-Once =
      Triple-bind (on_db-IsCalm open_statements w n (is_connected mysql) is_connected-Open)
        λ up. Triple-bind online-IsCalm λ users. answer-Once ok _

  dispatch-Once : Once (dispatch mysql json sha256 now)
  unfolding dispatch
  dispatch-Once = record {
    at = λ s h. ground (
      arith,
      handle_health_check-Once.at s h,
      handle_login-Once.at s h,
      handle_register-Once.at s h,
      (refuse-Once not_found "API endpoint not found").at s h,
      (answer-Once ok (
            "{\"message\":\"GateServer API is running\",\"version\":\"1.0\",\"client_ip\":\""
            ++ s.client_ip ++ "\"}")).at
          s h,
    );
  }

  -- on_read answers every request, whatever its method, path, fields and body, the count of its
  -- client's requests and the database are, with exactly one response, and leaves the mutexes of the two managers
  -- free, as they were, and as many statements open as before. It is assumed that the MySQL
  -- library's calls change the number of open statements as documented.
  pub on_read-IsCalm :
      (s : HttpSession Srv)
      → length s.written ≡ w
      → s.db.locked ≡ false
      → open_statements s.db.srv ≡ n
      → s.connections.locked ≡ false
      → Returns
          (λ t.
            (length t.written ≡ suc w)
            × (t.db.locked ≡ false)
            × (open_statements t.db.srv ≡ n)
            × (t.connections.locked ≡ false))
          (on_read mysql json sha256 now s)
  unfolding on_read
  on_read-IsCalm s a b c d =
      continue-Answers (Goes open_statements w n) (IsCalm open_statements (suc w) n)
        (validate_rate_limit now.steady s) _
        (validate_rate_limit-Goes open_statements w n now.steady s (a, b, c, d))
        (elim [ true ↦ λ t q. dispatch-Once.at t q | false ↦ λ t q. q ])
