-- ===== src/DatabaseManager/Messages.antt =====
-- The messages' queries of Services/utils/database_manager.cpp.
use qt_web_server_chat.Base.{
  ℕ, String, Bool, true, false, List, [], ◌∷◌, ◌++◌, Exec, pure, ◌>>=◌, ◌>>◌,
}
use qt_web_server_chat.DatabaseManager.{
  Value, long, text, Fetch, row, Mysql, DatabaseManager, locking, call, stmt_close, or_abandon,
  with_statement, when_available,
}

-- Sender, receiver, content and timestamp.
pub record Message : Type 0 where
  pub sender : ℕ
  pub receiver : ℕ
  pub content : String
  pub timestamp : String

abbrev pub message_columns : List Value → List Message
message_columns (long sender ∷ long receiver ∷ text content ∷ text timestamp ∷ []) =
    record { sender = sender; receiver = receiver; content = content; timestamp = timestamp } ∷ []
message_columns vs = []

-- The loop of getMessageHistory, which ends at the first call that does not return 0.
unfoldable pub collect_messages : List Fetch → List Message
collect_messages [] = []
collect_messages (row vs ∷ rest) = message_columns vs ++ collect_messages rest
collect_messages (f ∷ rest) = []

abbrev pub store_sql : String
store_sql = "INSERT INTO messages (sender_id, receiver_id, content) VALUES (?, ?, ?)"

abbrev pub history_sql : String
history_sql =
    "SELECT sender_id, receiver_id, content, timestamp FROM messages WHERE (sender_id = ? AND receiver_id = ?) OR (sender_id = ? AND receiver_id = ?) ORDER BY timestamp DESC LIMIT ?"

module _ {Srv : Type 0} (mysql : Mysql Srv) where
  unfoldable pub store_message : ℕ → ℕ → String → Exec (DatabaseManager Srv) Bool
  unfolding when_available with_statement stmt_close
  store_message sender_id receiver_id content = locking (
      when_available mysql false (
        with_statement mysql false store_sql (long sender_id ∷ long receiver_id ∷ text content ∷ [])
          (or_abandon mysql false mysql.stmt_execute (stmt_close mysql >> pure true))))

  unfoldable pub get_message_history : ℕ → ℕ → ℕ → Exec (DatabaseManager Srv) (List Message)
  unfolding when_available with_statement stmt_close collect_messages
  get_message_history user_id friend_id limit = locking (
      when_available mysql [] (
        with_statement mysql [] history_sql
          (long user_id ∷ long friend_id ∷ long friend_id ∷ long user_id ∷ long limit ∷ [])
          (or_abandon mysql [] mysql.stmt_bind_result (
            or_abandon mysql [] mysql.stmt_execute (
              call mysql.stmt_fetch_all >>= λ fetched.
              stmt_close mysql >> pure (collect_messages fetched))))))
