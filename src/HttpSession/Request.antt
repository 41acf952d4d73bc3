-- ===== src/HttpSession/Request.antt =====
-- The state of a session of Services/GateServer/http_session.{h,cpp}, and what its handlers share.
-- The text of a request's target and of its header fields is a list of character codes.
use Prim.Native.String.{◌++◌}
use Prim.Native.Nat.{suc}
use mathlib.Core.Option
use qt_web_server_chat.Base.{
  ℕ, String, Bool, true, false, ◌&&◌, Option, none, some, List, [], ◌∷◌, if◌then◌else◌, eqb, Dict,
  lookup, Exec, pure, focus, ◌>>◌, codes,
}
use qt_web_server_chat.ConnectionManager.{ConnectionManager}
use qt_web_server_chat.DatabaseManager.{DatabaseManager}
use qt_web_server_chat.WebSocketManager.{WebSocketManager}
use qt_web_server_chat.HttpSession.RateLimit.{RateLimiter, is_allowed, max_requests, window_seconds}
use qt_web_server_chat.HttpSession.Token.{Text}

pub data Verb : Type 0 where
  get post other : Verb

-- The header fields stand under their usual spelling, which `find` of the library ignores.
pub record HttpRequest : Type 0 where
  pub method : Verb
  pub target : Text
  pub version : ℕ
  pub keep_alive : Bool
  pub fields : Dict Text
  pub body : String

-- `req_ = {}`
abbrev pub no_request : HttpRequest
no_request = record {
  method = other;
  target = [];
  version = 11;
  keep_alive = true;
  fields = [];
  body = "";
}

pub record HttpResponse : Type 0 where
  pub version : ℕ
  pub result : ℕ
  pub server : String
  pub content_type : String
  pub keep_alive : Bool
  pub body : String

-- http::status
abbrev pub ok : ℕ
ok = 200

abbrev pub bad_request : ℕ
bad_request = 400

abbrev pub unauthorized : ℕ
unauthorized = 401

abbrev pub not_found : ℕ
not_found = 404

abbrev pub conflict : ℕ
conflict = 409

abbrev pub too_many_requests : ℕ
too_many_requests = 429

abbrev pub internal_server_error : ℕ
internal_server_error = 500

-- What the session holds, the managers of the program, and what it has begun: reads, writes (the
-- last one first), WebSocket sessions (user and session id), and the socket's shutdown.
pub record HttpSession (Srv : Type 0) : Type 0 where
  pub req : HttpRequest
  pub res : HttpResponse
  pub user_id : String
  pub session_id : String
  pub client_ip : String
  pub db : DatabaseManager Srv
  pub connections : ConnectionManager
  pub sessions : WebSocketManager
  pub limiter : RateLimiter
  pub reads : ℕ
  pub written : List HttpResponse
  pub upgraded : List (String × String)
  pub shut : Bool

abbrev pub error_body : String → String
error_body message = "{\"error\":\"" ++ message ++ "\"}"

module _ {Srv : Type 0} where
  abbrev pub on_db : {A : Type 0} → Exec (DatabaseManager Srv) A → Exec (HttpSession Srv) A
  on_db = focus (λ s. s.db) (λ t s. record s { db = t })

  abbrev pub on_connections : {A : Type 0} → Exec ConnectionManager A → Exec (HttpSession Srv) A
  on_connections = focus (λ s. s.connections) (λ t s. record s { connections = t })

  -- do_write, up to the handler of `async_write`.
  unfoldable pub do_write : Exec (HttpSession Srv) (Unit {0})
  do_write s = pure tt (record s { written = s.res ∷ s.written })

  unfoldable pub send_response : ℕ → String → String → Exec (HttpSession Srv) (Unit {0})
  unfolding do_write
  send_response status content_type body s = do_write (record s {
    res = record {
      version = s.req.version;
      result = status;
      server = "GateServer";
      content_type = content_type;
      keep_alive = s.req.keep_alive;
      body = body;
    };
  })

  unfoldable pub send_json_response : ℕ → String → Exec (HttpSession Srv) (Unit {0})
  unfolding send_response
  send_json_response status json = send_response status "application/json" json

  unfoldable pub send_error_response : ℕ → String → Exec (HttpSession Srv) (Unit {0})
  unfolding send_json_response
  send_error_response status message = send_json_response status (error_body message)

  -- `now` is the reading of the steady clock.
  unfoldable pub validate_rate_limit : ℕ → Exec (HttpSession Srv) Bool
  unfolding send_error_response
  validate_rate_limit now s =
      let r = is_allowed s.limiter s.client_ip max_requests window_seconds now in
      if r.0
      then pure true (record s { limiter = r.1 })
      else (send_error_response too_many_requests "Too many requests" >> pure false)
          (record s { limiter = r.1 })

-- s.find(pattern), from the position that stands in front.
abbrev pub is_prefix : Text → Text → Bool
is_prefix [] s = true
is_prefix (c ∷ p) [] = false
is_prefix (c ∷ p) (x ∷ s) = eqb c x && is_prefix p s

unfoldable pub find_text : Text → Text → Option ℕ
find_text p [] = if is_prefix p [] then some 0 else none
find_text p (x ∷ s) =
    let rest = find_text p s in if is_prefix p (x ∷ s) then some 0 else Option.map suc rest

module _ {Srv : Type 0} where
  unfoldable pub validate_content_type : String → Exec (HttpSession Srv) Bool
  unfolding send_error_response find_text
  validate_content_type expected_type s = elim (lookup "Content-Type" s.req.fields) [
    | none ↦ (send_error_response bad_request "Missing Content-Type header" >> pure false) s
    | some content_type ↦ elim (find_text (codes expected_type) content_type) [
      | none ↦ (send_error_response bad_request "Invalid Content-Type" >> pure false) s
      | some p ↦ pure true s
    ]
  ]
