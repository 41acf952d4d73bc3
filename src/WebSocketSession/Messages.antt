-- ===== src/WebSocketSession/Messages.antt =====
-- A session of Services/GateServer/websocket_session.cpp from its construction on: what it does with
-- the messages that it reads, and its heartbeat. Boost.JSON, MySQL and hiredis are parameters.
use Prim.Native.Nat.{◌^◌}
use Prim.Native.String.{◌++◌}
use qt_web_server_chat.Base.{
  ℕ, suc, ◌-◌, String, Bool, ◌&&◌, Option, none, some, List, [], ◌∷◌, ◌==◌, if◌then◌else◌, ℤ, pos,
  negsuc, to_string, stoi, Exec, pure, throw, try_catch, focus, relocate, eqb, ◌>>=◌, ◌>>◌,
}
use qt_web_server_chat.DatabaseManager.{Mysql, DatabaseManager}
use qt_web_server_chat.DatabaseManager.Users.{search_users}
use qt_web_server_chat.DatabaseManager.Messages.{store_message}
use qt_web_server_chat.HttpSession.Handlers.{c_str}
use qt_web_server_chat.WebSocketManager.{get_session}
use qt_web_server_chat.WebSocketSession.{WebSocketSession, send_message}

-- boost::json; `none` is an exception. `contains` is that of a value that is an object.
pub record Json (V : Type 0) : Type 0 where
  pub parse : String → Option V
  pub is_object : V → Bool
  pub contains : V → String → Bool
  pub at : V → String → Option V
  pub as_string : V → Option String
  pub string : String → V
  pub array : List V → V
  pub object : List (String × V) → V
  pub serialize : V → String

-- A session with the database manager and the objects of the other sessions, by number; the managers
-- that these see are the session's own, and send_message uses none. `reads` and `timers` count the reads and the waits that it has begun, and
-- `posted` the status reports that wait to be run.
pub record Conversation (Net Srv : Type 0) : Type 0 where
  pub session : WebSocketSession Net
  pub others : List (ℕ × WebSocketSession Net)
  pub db : DatabaseManager Srv
  pub buffer : String
  pub reads : ℕ
  pub timers : ℕ
  pub posted : ℕ

-- An `int` that is bound as MYSQL_TYPE_LONG gives its 32 bits.
abbrev pub word : ℤ → ℕ
word (pos n) = n
word (negsuc n) = 2 ^ 32 - 1 - n

abbrev pub login_response : String → String
login_response user_id =
    "{\"type\":\"login_response\",\"success\":true,\"message\":\"登录成功\",\"userId\":\"" ++ user_id
    ++ "\"}"

abbrev pub heartbeat_response : ℕ → String
heartbeat_response time =
    "{\"type\":\"heartbeat_response\",\"timestamp\":" ++ to_string (pos time) ++ "}"

abbrev pub heartbeat_message : ℕ → String
heartbeat_message time = "{\"type\":\"heartbeat\",\"timestamp\":" ++ to_string (pos time) ++ "}"

abbrev pub forward_message : String → String → ℕ → String
forward_message user_id content time =
    "{\"type\":\"text_message\",\"sender_id\":\""
    ++ user_id
    ++ "\",\"content\":\""
    ++ content
    ++ "\",\"timestamp\":"
    ++ to_string (pos time)
    ++ "}"

abbrev pub echo_message : String → String
echo_message message =
    "{\"type\":\"message\",\"from\":\"server\",\"content\":\"Echo: " ++ message ++ "\"}"

module _ {V : Type 0} (json : Json V) where
  abbrev user_objects : List (ℕ × String) → List V
  user_objects [] = []
  user_objects ((id, name) ∷ users) =
      json.object (
        ("userId", json.string (to_string (pos id)))
        ∷ ("userName", json.string name)
        ∷ ("userStatus", json.string "未知")
        ∷ [])
      ∷ user_objects users

  unfoldable pub search_response : List (ℕ × String) → String
  search_response users = json.serialize (
      json.object (
        ("type", json.string "search_user_response")
        ∷ ("results", json.array (user_objects users))
        ∷ []))

  -- jv.as_object().at(name).as_string().c_str()
  unfoldable pub string_field : V → String → Option String
  unfolding c_str
  string_field jv name = elim (json.at jv name) [
    | none ↦ none
    | some v ↦ elim (json.as_string v) [ none ↦ none | some s ↦ some (c_str s) ]
  ]

module _ {Net Srv : Type 0} where
  abbrev pub on_session :
      {A : Type 0} → Exec (WebSocketSession Net) A → Exec (Conversation Net Srv) A
  on_session = focus (λ s. s.session) (λ t s. record s { session = t })

  abbrev pub on_db : {A : Type 0} → Exec (DatabaseManager Srv) A → Exec (Conversation Net Srv) A
  on_db = focus (λ s. s.db) (λ t s. record s { db = t })

  unfoldable pub reply : String → Exec (Conversation Net Srv) (Unit {0})
  unfolding send_message
  reply message = on_session (send_message message)

  -- The string of a field, or the exception.
  abbrev pub or_throw :
      {A : Type 0}
      → Option A
      → (A → Exec (Conversation Net Srv) (Unit {0}))
      → Exec (Conversation Net Srv) (Unit {0})
  or_throw none f = throw
  or_throw (some a) f = f a

module _ {Net : Type 0} where
  abbrev pub session_at : ℕ → List (ℕ × WebSocketSession Net) → Option (WebSocketSession Net)
  session_at n [] = none
  session_at n ((m, t) ∷ ts) = let rest = session_at n ts in if eqb n m then some t else rest

  abbrev pub put_session :
      ℕ → WebSocketSession Net → List (ℕ × WebSocketSession Net) → List (ℕ × WebSocketSession Net)
  put_session n u [] = []
  put_session n u ((m, t) ∷ ts) =
      let rest = put_session n u ts in if eqb n m then (m, u) ∷ ts else (m, t) ∷ rest

module _ {Net Srv : Type 0} where
  -- send_message of the session with a number, which is this one if it is not another.
  unfoldable pub tell : ℕ → String → Exec (Conversation Net Srv) (Unit {0})
  unfolding reply send_message
  tell n message s = elim (session_at n s.others) [
    | none ↦ reply message s
    | some t ↦
        relocate (λ u c. record c { others = put_session n u c.others }) s (send_message message t)
  ]

module _ {Net Srv V : Type 0} (mysql : Mysql Srv) (json : Json V) (time : ℕ) where
  -- To the receiver's session, if there is one.
  unfoldable pub forward : String → String → Exec (Conversation Net Srv) (Unit {0})
  unfolding tell
  forward receiver_id content s = elim (get_session s.session.sessions receiver_id) [
    | none ↦ pure tt s
    | some n ↦ tell n (forward_message s.session.user_id content time) s
  ]

  -- The inner `try` block.
  unfoldable pub store_and_forward : String → String → Exec (Conversation Net Srv) (Unit {0})
  unfolding forward
  store_and_forward receiver_id content s =
      or_throw (stoi receiver_id)
        (λ receiver. or_throw (stoi s.session.user_id) (λ sender.
          on_db (store_message mysql (word sender) (word receiver) content) >>= λ stored.
          if stored then forward receiver_id content else pure tt))
        s

  unfoldable pub on_text : V → Exec (Conversation Net Srv) (Unit {0})
  unfolding store_and_forward string_field
  on_text jv =
      if json.contains jv "content" && json.contains jv "receiver_id"
      then or_throw (string_field json jv "content") (λ content.
        or_throw (string_field json jv "receiver_id")
          (λ receiver_id. try_catch (store_and_forward receiver_id content) (pure tt)))
      else pure tt

  unfoldable pub on_search : V → Exec (Conversation Net Srv) (Unit {0})
  unfolding string_field search_response reply
  on_search jv =
      if json.contains jv "query"
      then or_throw (string_field json jv "query") (λ query.
        on_db (search_users mysql query 20) >>= λ users. reply (search_response json users))
      else pure tt

  unfoldable pub on_type : String → String → V → Exec (Conversation Net Srv) (Unit {0})
  unfolding reply on_text on_search
  on_type message type jv =
      if type == "login"
      then (λ s. reply (login_response s.session.user_id) s)
      else if type == "heartbeat"
      then reply (heartbeat_response time)
      else if type == "text_message"
      then on_text jv
      else if type == "search_user"
      then on_search jv
      else reply (echo_message message)

  unfoldable pub on_value : String → V → Exec (Conversation Net Srv) (Unit {0})
  unfolding on_type reply string_field
  on_value message jv =
      if json.is_object jv && json.contains jv "type"
      then or_throw (string_field json jv "type") (λ type. on_type message type jv)
      else reply (echo_message message)

  unfoldable pub handle_text_message : String → Exec (Conversation Net Srv) (Unit {0})
  unfolding on_value reply
  handle_text_message message =
      try_catch (or_throw (json.parse message) (on_value message)) (reply (echo_message message))

  unfoldable pub do_read : Exec (Conversation Net Srv) (Unit {0})
  do_read s = pure tt (record s { reads = suc s.reads })

  unfoldable pub on_message : Exec (Conversation Net Srv) (Unit {0})
  unfolding handle_text_message do_read
  on_message s = (handle_text_message s.buffer >> do_read) (record s { buffer = "" })
