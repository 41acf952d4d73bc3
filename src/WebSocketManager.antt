-- ===== src/WebSocketManager.antt =====
-- Services/GateServer/websocket_manager.h. Each method is one step under the manager's mutex and
-- calls no other locking method. A session is known by the number of its object; a null pointer
-- is `none`. The keys of a `std::map` are sorted; here the ids come in the order of the table.
use qt_web_server_chat.Base.{
  ℕ, ◌≡◌, String, Option, none, some, List, [], ◌==◌, if◌then◌else◌, length, Dict, lookup, insert,
  erase, keys, lookup-insert, lookup-erase,
}

pub record WebSocketManager : Type 0 where
  pub sessions : Dict ℕ

abbrev pub init : WebSocketManager
init = record { sessions = [] }

unfoldable pub add_session : WebSocketManager → String → ℕ → WebSocketManager
add_session m user session = record { sessions = insert user session m.sessions }

unfoldable pub remove_session : WebSocketManager → String → WebSocketManager
remove_session m user = record { sessions = erase user m.sessions }

unfoldable pub get_session : WebSocketManager → String → Option ℕ
get_session m user = lookup user m.sessions

unfoldable pub get_active_session_count : WebSocketManager → ℕ
get_active_session_count m = length m.sessions

unfoldable pub get_active_user_ids : WebSocketManager → List String
get_active_user_ids m = keys m.sessions

unfoldable pub cleanup : WebSocketManager → WebSocketManager
cleanup m = record { sessions = [] }

pub get-add_session :
    (m : WebSocketManager) (user other : String) (session : ℕ)
    → get_session (add_session m user session) other
      ≡ (if user == other then some session else get_session m other)
unfolding get_session add_session
get-add_session m user other session = lookup-insert user other session m.sessions

pub get-remove_session :
    (m : WebSocketManager) (user other : String)
    → get_session (remove_session m user) other
      ≡ (if user == other then none else get_session m other)
unfolding get_session remove_session
get-remove_session m user other = lookup-erase user other m.sessions
