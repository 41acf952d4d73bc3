-- ===== src/HttpSession/Handlers.antt =====
-- The requests that Services/GateServer/http_session.cpp answers. Boost.JSON, OpenSSL's SHA-256 and
-- the MySQL library are parameters.
use Prim.Native.String.{◌++◌}
use Prim.Native.Char.{code}
use qt_web_server_chat.Base.{
  ℕ, String, Bool, true, false, ◌&&◌, ◌||◌, Option, none, some, List, [], ◌∷◌, ◌==◌, if◌then◌else◌,
  eqb, length, pos, to_string, Exec, pure, ◌>>=◌, codes, from_codes,
}
use qt_web_server_chat.ConnectionManager.{get_online_users}
use qt_web_server_chat.DatabaseManager.{Mysql, is_connected}
use qt_web_server_chat.DatabaseManager.Users.{get_user_by_username, user_exists, create_user}
use qt_web_server_chat.HttpSession.Token.{Text, text_eq, generate_token}
use qt_web_server_chat.HttpSession.Request.{
  Verb, get, post, HttpSession, ok, bad_request, unauthorized, not_found, conflict,
  internal_server_error, on_db, on_connections, send_json_response, send_error_response,
  validate_rate_limit, validate_content_type,
}

-- boost::json; `none` is an exception.
pub record BoostJson (V : Type 0) : Type 0 where
  pub parse : String → Option V
  pub at : V → String → Option V
  pub as_string : V → Option String

-- What the clocks and the random generator give while a request is handled: the steady clock and
-- the system's clock in nanoseconds, the salt of a token, and the time in seconds.
pub record Readings : Type 0 where
  pub steady : ℕ
  pub nanoseconds : ℕ
  pub salt : ℕ
  pub time : ℕ

-- The text that a std::string gets from c_str: up to the first character 0.
unfoldable pub c_str : String → String
c_str String.[] = String.[]
c_str (String.◌∷◌ c s) =
    let rest = c_str s in if eqb (code c) 0 then String.[] else String.◌∷◌ c rest

module _ {V : Type 0} (json : BoostJson V) where
  -- jv.at(name).as_string().c_str()
  unfoldable pub string_field : V → String → Option String
  unfolding c_str
  string_field jv name = elim (json.at jv name) [
    | none ↦ none
    | some v ↦ elim (json.as_string v) [ none ↦ none | some s ↦ some (c_str s) ]
  ]

  -- The fields of the body, or `none` if an exception ends the `try` block.
  unfoldable pub fields_of : List String → V → Option (List String)
  unfolding string_field
  fields_of [] jv = some []
  fields_of (name ∷ names) jv = elim (string_field jv name) [
    | none ↦ none
    | some s ↦ elim (fields_of names jv) [ none ↦ none | some ss ↦ some (s ∷ ss) ]
  ]

  unfoldable pub read_body : List String → String → Option (List String)
  unfolding fields_of
  read_body names body = elim (json.parse body) [ none ↦ none | some jv ↦ fields_of names jv ]

abbrev pub login_body : Text → String → String
login_body token user_id =
    "{\"type\":\"login_success\",\"token\":\""
    ++ from_codes token
    ++ "\",\"userId\":\""
    ++ user_id
    ++ "\"}"

module _ {Srv V : Type 0} (mysql : Mysql Srv) (json : BoostJson V) (sha256 : String → String)
    (now : Readings) where
  -- The answer to a user whom the database knows, with an id and a hash, or does not know.
  unfoldable pub answer_login : String → Option (ℕ × String) → Exec (HttpSession Srv) (Unit {0})
  unfolding send_json_response send_error_response
  answer_login password none = send_error_response unauthorized "Invalid username or password"
  answer_login password (some (id, hash)) =
      let user_id = to_string (pos id) in
      if sha256 password == hash
      then send_json_response ok
          (login_body (generate_token (codes user_id) now.nanoseconds now.salt) user_id)
      else send_error_response unauthorized "Invalid username or password"

  -- What follows the reading of the body.
  unfoldable pub log_in : Option (List String) → Exec (HttpSession Srv) (Unit {0})
  unfolding answer_login send_error_response
  log_in (some (username ∷ password ∷ [])) =
      on_db (get_user_by_username mysql username) >>= answer_login password
  log_in _ = send_error_response bad_request "Invalid JSON format"

  unfoldable pub handle_login : Exec (HttpSession Srv) (Unit {0})
  unfolding log_in validate_content_type read_body
  handle_login = validate_content_type "application/json" >>= λ valid.
      if valid
      then (λ s. log_in (read_body json ("username" ∷ "password" ∷ []) s.req.body) s)
      else pure tt

  -- The three answers are written out in the source, with the statements of send_response.
  unfoldable pub answer_register : Option ℕ → Exec (HttpSession Srv) (Unit {0})
  unfolding send_json_response
  answer_register none =
      send_json_response internal_server_error
        "{\"type\":\"register_failed\",\"message\":\"Failed to register user\"}"
  answer_register (some id) = send_json_response ok (
      "{\"type\":\"register_success\",\"message\":\"User registered successfully\",\"userId\":\""
      ++ to_string (pos id)
      ++ "\"}")

  unfoldable pub create_account : String → String → String → Exec (HttpSession Srv) (Unit {0})
  unfolding answer_register send_json_response
  create_account username password email = on_db (user_exists mysql username) >>= λ taken.
      if taken
      then send_json_response conflict
          "{\"type\":\"register_failed\",\"message\":\"Username already exists\"}"
      else (on_db (create_user mysql sha256 username password email) >>= answer_register)

  unfoldable pub register : Option (List String) → Exec (HttpSession Srv) (Unit {0})
  unfolding create_account send_error_response
  register (some (username ∷ password ∷ email ∷ [])) =
      if (username == "") || (password == "")
      then send_error_response bad_request "Username and password are required"
      else create_account username password email
  register _ = send_error_response bad_request "Invalid JSON format"

  unfoldable pub handle_register : Exec (HttpSession Srv) (Unit {0})
  unfolding register validate_content_type read_body
  handle_register = validate_content_type "application/json" >>= λ valid.
      if valid
      then (λ s. register (read_body json ("username" ∷ "password" ∷ "email" ∷ []) s.req.body) s)
      else pure tt

  unfoldable pub handle_health_check : Exec (HttpSession Srv) (Unit {0})
  unfolding send_json_response
  handle_health_check = on_db (is_connected mysql) >>= λ db_connected.
      on_connections get_online_users >>= λ users. send_json_response ok (
        "{\"status\":\"ok\",\"database_connected\":"
        ++ (if db_connected then "true" else "false")
        ++ ",\"online_users\":"
        ++ to_string (pos (length users))
        ++ ",\"timestamp\":\""
        ++ to_string (pos now.time)
        ++ "\"}")

  abbrev pub is_get : Verb → Bool
  is_get get = true
  is_get _ = false

  abbrev pub is_post : Verb → Bool
  is_post post = true
  is_post _ = false

  unfoldable pub dispatch : Exec (HttpSession Srv) (Unit {0})
  unfolding handle_login handle_register handle_health_check send_json_response send_error_response
  dispatch s =
      let at_path = λ (path : String). text_eq s.req.target (codes path) in
      if is_get s.req.method && at_path "/"
      then send_json_response ok
          ("{\"message\":\"GateServer API is running\",\"version\":\"1.0\",\"client_ip\":\""
            ++ s.client_ip ++ "\"}")
          s
      else if is_get s.req.method && at_path "/health"
      then handle_health_check s
      else if is_post s.req.method && at_path "/login"
      then handle_login s
      else if is_post s.req.method && at_path "/register"
      then handle_register s
      else send_error_response not_found "API endpoint not found" s

  unfoldable pub on_read : Exec (HttpSession Srv) (Unit {0})
  unfolding dispatch validate_rate_limit
  on_read = validate_rate_limit now.steady >>= λ allowed. if allowed then dispatch else pure tt
