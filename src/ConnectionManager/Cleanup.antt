-- ===== src/ConnectionManager/Cleanup.antt =====
-- cleanupExpiredSessions of Services/GateServer/connection_manager.cpp calls removeConnection while
-- it holds the mutex that removeConnection takes.
use qt_web_server_chat.Base.{
  ℕ, ◌<◌, ◌≡◌, refl, inl, inr, String, true, false, some, List, [], ◌∷◌, ◌++◌, arith, ◌==◌, ltb,
  Dict, lookup, Bool-cases, blocked, with_lock,
}
use qt_web_server_chat.ConnectionManager.{
  SessionInfo, ConnectionManager, remove_connection, elapsed_seconds, expired_of, expired_sessions,
  remove_all, cleanup_expired_sessions,
}

IsNonempty : {A : Type 0} → List A → Type 0
IsNonempty {A} xs = (x : A) × (rest : List A) × (xs ≡ x ∷ rest)

IsNonempty-append_right : {A : Type 0} (xs ys : List A) → IsNonempty ys → IsNonempty (xs ++ ys)
unfolding IsNonempty
IsNonempty-append_right [] ys h = h
IsNonempty-append_right (x ∷ xs) ys h = (x, xs ++ ys, refl)

IsNonempty-append_left : {A : Type 0} (xs ys : List A) → IsNonempty xs → IsNonempty (xs ++ ys)
unfolding IsNonempty
IsNonempty-append_left [] ys (x, rest, e) = absurd (cc)
IsNonempty-append_left (x ∷ xs) ys h = (x, xs ++ ys, refl)

expired_of-found :
    (now timeout : ℕ) (user session : String) (info : SessionInfo) (m : Dict SessionInfo)
    → lookup session m ≡ some info
    → timeout < elapsed_seconds now info.last_activity
    → IsNonempty (expired_of now timeout user m)
unfolding IsNonempty lookup
expired_of-found now timeout user session info [] h late = absurd (cc)
expired_of-found now timeout user session info ((s, i) ∷ m) h late =
    elim (Bool-cases (ltb timeout (elapsed_seconds now i.last_activity))) [
      | inl due ↦ rw due ((user, s), expired_of now timeout user m, refl)
      | inr fresh ↦
          rw fresh (expired_of-found now timeout user session info m (ground (arith)) late)
    ]

expired_sessions-found :
    (now timeout : ℕ) (user session : String) (info : SessionInfo) (ss : Dict SessionInfo)
    (m : Dict (Dict SessionInfo))
    → lookup user m ≡ some ss
    → lookup session ss ≡ some info
    → timeout < elapsed_seconds now info.last_activity
    → IsNonempty (expired_sessions now timeout m)
unfolding lookup
expired_sessions-found now timeout user session info ss [] e h late = absurd (cc)
expired_sessions-found now timeout user session info ss ((u, sessions) ∷ m) e h late =
    elim (Bool-cases (u == user)) [
      | inl here ↦ IsNonempty-append_left (expired_of now timeout u sessions) _ (
          expired_of-found now timeout u session info sessions (rw (some_inj (rw here at e)) h)
            late)
      | inr other ↦
          IsNonempty-append_right (expired_of now timeout u sessions) _
            (expired_sessions-found now timeout user session info ss m (rw other at e) h late)
    ]
  where
    some_inj : {A : Type 0} {a b : A} → some a ≡ some b → a ≡ b
    some_inj q = cc

remove_all_blocked :
    (xs : List (String × String)) (m : ConnectionManager)
    → m.locked ≡ true
    → IsNonempty xs
    → remove_all xs m ≡ blocked
unfolding IsNonempty remove_all remove_connection
remove_all_blocked [] m held (x, rest, e) = absurd (cc)
remove_all_blocked ((u, s) ∷ xs) m held h = rw (held, with_lock) refl

-- cleanupExpiredSessions, called with the mutex free while some session has been idle for more than
-- the timeout, never returns: it waits for the mutex that it holds itself.
pub cleanup_deadlocks :
    (timeout now : ℕ) (user session : String) (ss : Dict SessionInfo) (info : SessionInfo)
    (m : ConnectionManager)
    → m.locked ≡ false
    → lookup user m.user_sessions ≡ some ss
    → lookup session ss ≡ some info
    → timeout < elapsed_seconds now info.last_activity
    → cleanup_expired_sessions timeout now m ≡ blocked
unfolding cleanup_expired_sessions
cleanup_deadlocks timeout now user session ss info m free e h late =
    rw (free, with_lock)
      (rw
        (remove_all_blocked (expired_sessions now timeout m.user_sessions)
          (record m { locked = true }) refl
          (expired_sessions-found now timeout user session info ss m.user_sessions e h late))
        refl)
