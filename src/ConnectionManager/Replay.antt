-- ===== src/ConnectionManager/Replay.antt =====
-- Histories of Services/GateServer/connection_manager.cpp against the relation of users and sessions
-- that the manager stands for.
use qt_web_server_chat.Base.{
  ℕ, ◌≡◌, refl, ap, String, Bool, true, false, ◌&&◌, List, [], ◌∷◌, ◌==◌, if◌then◌else◌, ◌∙◌, Exec,
  pure, ◌>>◌, Returns, Triple, continue-Returns,
}
use qt_web_server_chat.ConnectionManager.{
  ConnectionManager, add_connection, remove_connection, is_user_online, get_online_users,
  get_session_count, update_session_activity,
}
use qt_web_server_chat.ConnectionManager.Links.{listed, listed-add, listed-drop}
use qt_web_server_chat.ConnectionManager.Online.{listed-touch}

-- The methods, without the one that cleans up; `asks_online`, `asks_users` and `asks_count` are isUserOnline,
-- getOnlineUsers and getSessionCount.
pub data Operation : Type 0 where
  adds : String → String → String → ℕ → Operation
  removes : String → String → Operation
  touches : String → String → ℕ → Operation
  asks_online : String → Operation
  asks_users : Operation
  asks_count : String → Operation

unfoldable pub perform : Operation → Exec ConnectionManager (Unit {0})
perform (adds user session ip now) = add_connection user session ip now
perform (removes user session) = remove_connection user session
perform (touches user session now) = update_session_activity user session now
perform (asks_online user) = is_user_online user >> pure tt
perform asks_users = get_online_users >> pure tt
perform (asks_count user) = get_session_count user >> pure tt

unfoldable pub perform_all : List Operation → Exec ConnectionManager (Unit {0})
unfolding perform
perform_all [] = pure tt
perform_all (o ∷ os) = perform o >> perform_all os

-- Which session belongs to which user.
abbrev pub Relation : Type 0
Relation = String → String → Bool

unfoldable pub apply : Operation → Relation → Relation
apply (adds user session ip now) r u s = if (user == u) && (session == s) then true else r u s
apply (removes user session) r u s = if (user == u) && (session == s) then false else r u s
apply _ r u s = r u s

unfoldable pub replay : List Operation → Relation → Relation
unfolding apply
replay [] r = r
replay (o ∷ os) r = replay os (apply o r)

-- The manager, with its mutex free, lists the pairs of the relation.
Shows : Relation → ConnectionManager → Type 0
Shows r m = (m.locked ≡ false) × ((u s : String) → listed u s m.user_sessions ≡ r u s)

perform-Shows : (o : Operation) (r : Relation) → Triple (Shows r) (perform o) (Shows (apply o r))
unfolding perform Shows apply add_connection remove_connection update_session_activity
    is_user_online get_online_users get_session_count
perform-Shows (adds user session ip now) r = record {
  at = λ m h. rw (h.0) (
    refl,
    (λ u s.
        listed-add user session u s
          (record { session_id = session; last_activity = now; ip_address = ip }) m.user_sessions
        ∙ ap (λ b. if (user == u) && (session == s) then true else b) (h.1 u s)),
  );
}
perform-Shows (removes user session) r = record {
  at = λ m h. rw (h.0) (
    refl,
    (λ u s.
        listed-drop user session u s m.user_sessions
        ∙ ap (λ b. if (user == u) && (session == s) then false else b) (h.1 u s)),
  );
}
perform-Shows (touches user session now) r = record {
  at = λ m h. rw (h.0) (refl, (λ u s. listed-touch now user session u s m.user_sessions ∙ h.1 u s));
}
perform-Shows (asks_online user) r = record { at = λ m h. rw (h.0) (refl, h.1) }
perform-Shows asks_users r = record { at = λ m h. rw (h.0) (refl, h.1) }
perform-Shows (asks_count user) r = record { at = λ m h. rw (h.0) (refl, h.1) }

-- After any calls of the manager's methods, the one that cleans up apart, on a manager whose mutex is
-- free, the mutex is free, and the sessions that it lists for each user are those that the same
-- calls leave of the relation that it listed before, where adding a connection adds a pair, removing one removes the pair, and no other
-- call changes any.
pub perform_all-replay :
    (os : List Operation) (r : Relation) (m : ConnectionManager)
    → m.locked ≡ false
    → ((u s : String) → listed u s m.user_sessions ≡ r u s)
    → Returns
        (λ t. (t.locked ≡ false) × ((u s : String) → listed u s t.user_sessions ≡ replay os r u s))
        (perform_all os m)
unfolding perform_all replay Shows
perform_all-replay [] r m free shown = (free, shown)
perform_all-replay (o ∷ os) r m free shown =
    continue-Returns (perform o m) _ ((perform-Shows o r).at m (free, shown))
      (λ a. record { at = λ t h. perform_all-replay os (apply o r) t h.0 h.1 })
