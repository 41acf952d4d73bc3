-- ===== src/ConnectionManager/Tests.antt =====
-- The connection manager with one session.
use qt_web_server_chat.Base.{
  Returns, List, ◌≡◌, refl, inl, inr, String, true, false, ◌&&◌, [], ◌∷◌, arith, ◌==◌,
  if◌then◌else◌, eq_iff, lookup, lookup_or, done, blocked,
}
use qt_web_server_chat.ConnectionManager.{
  SessionInfo, ConnectionManager, add_connection, remove_connection, cleanup_expired_sessions,
}
use qt_web_server_chat.ConnectionManager.Links.{
  listed, IsLinked, add_connection-IsLinked, remove_connection-IsLinked,
}
use qt_web_server_chat.ConnectionManager.Replay.{
  Operation, adds, removes, asks_online, replay, perform_all, perform_all-replay,
}
use qt_web_server_chat.ConnectionManager.Cleanup.{cleanup_deadlocks}

abbrev info : SessionInfo
info = record { session_id = "s1"; last_activity = 0; ip_address = "10.0.0.1" }

abbrev one : ConnectionManager
one = record {
  user_sessions = ("alice", ("s1", info) ∷ []) ∷ [];
  session_to_user = ("s1", "alice") ∷ [];
  locked = false;
}

one-IsLinked : IsLinked one
unfolding listed lookup lookup_or
one-IsLinked = record {
  filed = λ u s h. ground (arith, eq_iff "alice" u, eq_iff "s1" s);
  back = λ u s h. ground (arith, eq_iff "alice" u, eq_iff "s1" s);
  occupied = λ u h. ground (arith, eq_iff "alice" u);
}

add_connection-IsLinked_example :
    (m' : ConnectionManager) × (add_connection "bob" "s2" "10.0.0.2" 5 one ≡ done tt m')
    × IsLinked m'
    × (m'.locked ≡ false)
    × ((u s : String)
        → listed u s m'.user_sessions
          ≡ (if ("bob" == u) && ("s2" == s) then true else listed u s one.user_sessions))
unfolding lookup
add_connection-IsLinked_example =
    add_connection-IsLinked "bob" "s2" "10.0.0.2" 5 one refl (inl refl) one-IsLinked

remove_connection-IsLinked_example :
    (m' : ConnectionManager) × (remove_connection "alice" "s1" one ≡ done tt m')
    × IsLinked m'
    × (m'.locked ≡ false)
    × ((u s : String)
        → listed u s m'.user_sessions
          ≡ (if ("alice" == u) && ("s1" == s) then false else listed u s one.user_sessions))
unfolding lookup
remove_connection-IsLinked_example =
    remove_connection-IsLinked "alice" "s1" one refl (inr refl) one-IsLinked

-- 31 minutes after the session's last activity.
cleanup_deadlocks_example : cleanup_expired_sessions 1800 1860000000000 one ≡ blocked
unfolding lookup
cleanup_deadlocks_example =
    cleanup_deadlocks 1800 1860000000000 "alice" "s1" (("s1", info) ∷ []) info one refl refl refl
      (omega arith)

abbrev calls : List Operation
calls = adds "bob" "s2" "10.0.0.2" 5 ∷ asks_online "bob" ∷ removes "alice" "s1" ∷ []

perform_all-replay_example :
    Returns
      (λ t.
        (t.locked ≡ false)
        × ((u s : String)
            → listed u s t.user_sessions ≡ replay calls (λ v r. listed v r one.user_sessions) u s))
      (perform_all calls one)
perform_all-replay_example =
    perform_all-replay calls (λ v r. listed v r one.user_sessions) one refl (λ u s. refl)
