-- ===== src/ConnectionManager.antt =====
-- Services/GateServer/connection_manager.{h,cpp}. Every method takes the manager's mutex, a
-- `std::mutex`; `locked` says that the calling thread holds it. `now` is the reading of the steady
-- clock in nanoseconds.
pub mod Links
pub mod Online
pub mod Cleanup
pub mod Replay
mod Tests
use qt_web_server_chat.Base.{
  ℕ, ◌-◌, ◌/◌, String, Bool, true, false, Option, none, some, List, [], ◌∷◌, ◌++◌, ltb,
  if◌then◌else◌, length, Dict, lookup, insert, erase, lookup_or, keys, Exec, pure, with_lock, ◌>>=◌,
  ◌>>◌,
}

pub record SessionInfo : Type 0 where
  pub session_id : String
  pub last_activity : ℕ
  pub ip_address : String

pub record ConnectionManager : Type 0 where
  pub user_sessions : Dict (Dict SessionInfo)
  pub session_to_user : Dict String
  pub locked : Bool

abbrev pub init : ConnectionManager
init = record { user_sessions = []; session_to_user = []; locked = false }

abbrev pub locking : {A : Type 0} → Exec ConnectionManager A → Exec ConnectionManager A
locking = with_lock (λ m. m.locked) (λ b m. record m { locked = b })

-- `map::emplace` keeps an entry that is there.
unfoldable pub emplace : String → SessionInfo → Dict SessionInfo → Dict SessionInfo
emplace k info m = elim (lookup k m) [ none ↦ insert k info m | some _ ↦ m ]

unfoldable pub add_connection : String → String → String → ℕ → Exec ConnectionManager (Unit {0})
unfolding emplace
add_connection user session ip now = locking λ m. pure tt (record m {
  user_sessions =
      insert user
        (emplace session (record { session_id = session; last_activity = now; ip_address = ip })
          (lookup_or [] user m.user_sessions))
        m.user_sessions;
  session_to_user = insert session user m.session_to_user;
})

-- The user's map is written back, or dropped when it has become empty.
unfoldable pub put_back :
    String → Dict SessionInfo → Dict (Dict SessionInfo) → Dict (Dict SessionInfo)
put_back user [] m = erase user m
put_back user (s ∷ rest) m = insert user (s ∷ rest) m

unfoldable pub drop_session : String → String → Dict (Dict SessionInfo) → Dict (Dict SessionInfo)
unfolding put_back
drop_session user session m = elim (lookup user m) [
  | none ↦ m
  | some sessions ↦ put_back user (erase session sessions) m
]

unfoldable pub remove_connection : String → String → Exec ConnectionManager (Unit {0})
unfolding drop_session
remove_connection user session = locking λ m. pure tt (record m {
  user_sessions = drop_session user session m.user_sessions;
  session_to_user = erase session m.session_to_user;
})

abbrev pub is_some {ℓ} : {A : Type ℓ} → Option A → Bool
is_some none = false
is_some (some a) = true

unfoldable pub is_user_online : String → Exec ConnectionManager Bool
is_user_online user = locking λ m. pure (is_some (lookup user m.user_sessions)) m

unfoldable pub get_online_users : Exec ConnectionManager (List String)
get_online_users = locking λ m. pure (keys m.user_sessions) m

unfoldable pub get_session_count : String → Exec ConnectionManager ℕ
get_session_count user = locking λ m. pure (length (lookup_or [] user m.user_sessions)) m

unfoldable pub touch : ℕ → String → Dict SessionInfo → Dict SessionInfo
touch now session sessions = elim (lookup session sessions) [
  | none ↦ sessions
  | some info ↦ insert session (record info { last_activity = now }) sessions
]

unfoldable pub touch_user : ℕ → String → String → Dict (Dict SessionInfo) → Dict (Dict SessionInfo)
unfolding touch
touch_user now user session m = elim (lookup user m) [
  | none ↦ m
  | some sessions ↦ insert user (touch now session sessions) m
]

unfoldable pub update_session_activity : String → String → ℕ → Exec ConnectionManager (Unit {0})
unfolding touch_user
update_session_activity user session now =
    locking λ m. pure tt (record m { user_sessions = touch_user now user session m.user_sessions })

abbrev pub elapsed_seconds : ℕ → ℕ → ℕ
elapsed_seconds now before = (now - before) / 1000000000

-- The sessions of one user that are due, paired with the user.
abbrev pub expired_of : ℕ → ℕ → String → Dict SessionInfo → List (String × String)
expired_of now timeout user [] = []
expired_of now timeout user ((session, info) ∷ rest) =
    if ltb timeout (elapsed_seconds now info.last_activity)
    then (user, session) ∷ expired_of now timeout user rest
    else expired_of now timeout user rest

abbrev pub expired_sessions : ℕ → ℕ → Dict (Dict SessionInfo) → List (String × String)
expired_sessions now timeout [] = []
expired_sessions now timeout ((user, sessions) ∷ rest) =
    expired_of now timeout user sessions ++ expired_sessions now timeout rest

unfoldable pub remove_all : List (String × String) → Exec ConnectionManager (Unit {0})
unfolding remove_connection
remove_all [] = pure tt
remove_all ((user, session) ∷ rest) = remove_connection user session >> remove_all rest

-- The loop calls removeConnection inside the scope of this method's own lock.
unfoldable pub cleanup_expired_sessions : ℕ → ℕ → Exec ConnectionManager (Unit {0})
unfolding remove_all
cleanup_expired_sessions timeout now =
    locking λ m. remove_all (expired_sessions now timeout m.user_sessions) m
