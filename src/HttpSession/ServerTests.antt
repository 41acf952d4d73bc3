-- ===== src/HttpSession/ServerTests.antt =====
-- A server whose database knows one user, and whose hash of a password is the password.
use qt_web_server_chat.Base.{
  ℕ, suc, ◌-◌, ◌≡◌, refl, true, false, some, [], ◌∷◌, length, done, Returns, lookup, codes, pos,
  to_string,
}
use qt_web_server_chat.ConnectionManager.{init}
use qt_web_server_chat.ConnectionManager.Links.{listed}
use qt_web_server_chat.DatabaseManager.{long, text, row, Mysql, DatabaseManager}
use qt_web_server_chat.DatabaseManager.Users.{get_user_by_username}
use qt_web_server_chat.DatabaseManager.Statements.{Counts}
use qt_web_server_chat.WebSocketManager.{get_session}
use qt_web_server_chat.HttpSession.Request.{post, get, HttpRequest, no_request, HttpSession, ok}
use qt_web_server_chat.HttpSession.Handlers.{BoostJson, Readings, log_in, on_read}
use qt_web_server_chat.HttpSession.Lifecycle.{other_error, on_request, do_close}
use qt_web_server_chat.HttpSession.Answers.{on_read-IsCalm}
use qt_web_server_chat.HttpSession.Login.{
  target_of, token_for, on_request-token_for, verdict, log_in_lem,
}
use qt_web_server_chat.HttpSession.Token.{Text}
use qt_web_server_chat.HttpSession.PostData.{parse_post_data}
use qt_web_server_chat.HttpSession.PostData.Pieces.{split, add_all, parse_post_data-split}
use qt_web_server_chat.HttpSession.End.{do_close_lem}
use qt_web_server_chat.LoadBalancer

abbrev mysql : Mysql ℕ
mysql = record {
  init = λ n. (true, n);
  real_connect = λ host port n. (true, n);
  close = λ n. n;
  ping = λ n. (true, n);
  query = λ q n. (true, n);
  insert_id = λ n. 8;
  stmt_init = λ n. (true, suc n);
  stmt_prepare = λ q n. (true, n);
  stmt_bind_param = λ vs n. (true, n);
  stmt_bind_result = λ n. (true, n);
  stmt_execute = λ n. (true, n);
  stmt_fetch = λ n. (row (long 7 ∷ text "secret" ∷ []), n);
  stmt_fetch_all = λ n. ([], n);
  stmt_close = λ n. n - 1;
}

mysql-Counts : Counts mysql (λ n. n)
mysql-Counts = record {
  init = λ v. refl;
  real_connect = λ host port v. refl;
  close = λ v. refl;
  ping = λ v. refl;
  query = λ q v. refl;
  stmt_init = λ v. refl;
  stmt_prepare = λ q v. refl;
  stmt_bind_param = λ vs v. refl;
  stmt_bind_result = λ v. refl;
  stmt_execute = λ v. refl;
  stmt_fetch = λ v. refl;
  stmt_fetch_all = λ v. refl;
  stmt_close = λ v. refl;
}

abbrev db : DatabaseManager ℕ
db = record {
  srv = 0;
  connection = true;
  connected = true;
  current_host = "localhost";
  current_port = 3306;
  load_balancer = LoadBalancer.init;
  locked = false;
}

-- Every field of every body is "ann".
abbrev json : BoostJson (Unit {0})
json = record { parse = λ body. some tt; at = λ v name. some tt; as_string = λ v. some "ann" }

abbrev now : Readings
now = record { steady = 0; nanoseconds = 1700000000; salt = 123456; time = 1700000000 }

abbrev login : HttpRequest
login = record no_request {
  method = post;
  target = codes "/login";
  fields = ("Content-Type", codes "application/json") ∷ [];
}

abbrev session : HttpRequest → HttpSession ℕ
session req = record {
  req = req;
  res = record {
    version = 11;
    result = 200;
    server = "";
    content_type = "";
    keep_alive = true;
    body = "";
  };
  user_id = "7";
  session_id = "s1";
  client_ip = "127.0.0.1";
  db = db;
  connections = init;
  sessions = record { sessions = [] };
  limiter = [];
  reads = 1;
  written = [];
  upgraded = [];
  shut = false;
}

on_read-IsCalm_example :
    Returns
      (λ t.
        (length t.written ≡ 1)
        × (t.db.locked ≡ false)
        × (t.db.srv ≡ 0)
        × (t.connections.locked ≡ false))
      (on_read mysql json (λ p. p) now (session login))
on_read-IsCalm_example =
    on_read-IsCalm mysql (λ n. n) mysql-Counts json (λ p. p) now 0 0 (session login) refl refl refl
      refl

abbrev joining : HttpRequest
joining = record no_request { method = get; target = target_of (token_for 7 1700000000 123456) }

on_request-token_for_example :
    Returns
      (λ t.
        (get_session t.sessions (to_string (pos 7)) ≡ some 1)
        × (lookup "s1" t.connections.session_to_user ≡ some (to_string (pos 7)))
        × (listed (to_string (pos 7)) "s1" t.connections.user_sessions ≡ true)
        × (t.upgraded ≡ (to_string (pos 7), "s1") ∷ [])
        × (t.written ≡ []))
      (on_request mysql json (λ p. p) (λ r. true) now 1 (session joining))
on_request-token_for_example =
    on_request-token_for mysql json (λ p. p) (λ r. true) now 7 1700000000 123456 1 (session joining)
      refl refl refl

known : get_user_by_username mysql "ann" db ≡ done (some (7, "secret")) db
unfolding get_user_by_username
known = refl

log_in_lem_example :
    Returns
      (λ t.
        (t.written ≡ t.res ∷ [])
        × (t.db ≡ db)
        × (t.res.result ≡ ok)
        × (t.res.body ≡ verdict now true (some (7, "secret"))))
      (log_in mysql json (λ p. p) now (some ("ann" ∷ "secret" ∷ [])) (session login))
log_in_lem_example =
    log_in_lem mysql json (λ p. p) now "ann" "secret" (some (7, "secret")) db (session login) known

do_close_lem_example :
    Returns
      (λ t.
        (listed "7" "s1" t.connections.user_sessions ≡ false)
        × (t.connections.locked ≡ false)
        × (t.shut ≡ false))
      (do_close (some (other_error "shutdown")) (session login))
do_close_lem_example = do_close_lem (some (other_error "shutdown")) (session login) refl refl refl

-- The second value has a space and a character by its number.
abbrev body : Text
body = codes "name=ann&city=a+%62&x"

parse_post_data-split_example : parse_post_data body ≡ add_all (split b'&' body) []
parse_post_data-split_example = parse_post_data-split body
