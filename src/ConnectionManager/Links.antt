-- ===== src/ConnectionManager/Links.antt =====
-- The agreement of the two maps of Services/GateServer/connection_manager.cpp: that a session is
-- listed under a user exactly when it is filed back to that user.
use qt_web_server_chat.Base.{
  ℕ, ◌≡◌, ◌≢◌, ◌≢◌, refl, ap, sym, ◌∙◌, ◌⊎◌, inl, inr, String, Bool, true, false, ◌&&◌, none, some,
  [], ◌∷◌, arith, ◌==◌, if◌then◌else◌, eq_iff, Dict, lookup, insert, erase, lookup_or,
  lookup-insert, lookup-erase, lookup_or-none, lookup_or-some, lookup_or-insert, Option-cases, done,
  with_lock,
}
use qt_web_server_chat.ConnectionManager.{
  SessionInfo, ConnectionManager, emplace, add_connection, put_back, drop_session,
  remove_connection, is_some,
}

-- Is the session listed under the user?
unfoldable pub listed : String → String → Dict (Dict SessionInfo) → Bool
listed user session m = is_some (lookup session (lookup_or [] user m))

lookup-emplace :
    (k j : String) (info : SessionInfo) (m : Dict SessionInfo)
    → is_some (lookup j (emplace k info m)) ≡ (if k == j then true else is_some (lookup j m))
unfolding emplace
lookup-emplace k j info m = ground (arith, lookup-insert k j info m, eq_iff k j)

pub listed-add :
    (user session u s : String) (info : SessionInfo) (m : Dict (Dict SessionInfo))
    → listed u s (insert user (emplace session info (lookup_or [] user m)) m)
      ≡ (if (user == u) && (session == s) then true else listed u s m)
unfolding listed
listed-add user session u s info m = ground (
  arith,
  lookup_or-insert [] user u (emplace session info (lookup_or [] user m)) m,
  lookup-emplace session s info (lookup_or [] user m),
  eq_iff user u,
)

lookup_or-put_back :
    (user u : String) (sessions : Dict SessionInfo) (m : Dict (Dict SessionInfo))
    → lookup_or [] u (put_back user sessions m) ≡ (if user == u then sessions else lookup_or [] u m)
unfolding put_back lookup_or
lookup_or-put_back user u [] m = ground (arith, lookup-erase user u m)
lookup_or-put_back user u (x ∷ sessions) m = ground (arith, lookup-insert user u (x ∷ sessions) m)

lookup_or-drop_session :
    (user session u : String) (m : Dict (Dict SessionInfo))
    → lookup_or [] u (drop_session user session m)
      ≡ (if user == u then erase session (lookup_or [] user m) else lookup_or [] u m)
unfolding drop_session erase
lookup_or-drop_session user session u m = elim (Option-cases (lookup user m)) [
  | inl e ↦
      rw (e, drop_session)
        (ground (arith, lookup_or-none {V = Dict SessionInfo} [] user m e, eq_iff user u))
  | inr (ss, e) ↦
      rw (e, drop_session)
        (lookup_or-put_back user u (erase session ss) m
          ∙ ap (λ (t : Dict SessionInfo). if user == u then erase session t else lookup_or [] u m)
              (sym (lookup_or-some [] user m e)))
]

pub listed-drop :
    (user session u s : String) (m : Dict (Dict SessionInfo))
    → listed u s (drop_session user session m)
      ≡ (if (user == u) && (session == s) then false else listed u s m)
unfolding listed
listed-drop user session u s m = ground (
  arith,
  lookup_or-drop_session user session u m,
  lookup-erase session s (lookup_or [] user m),
  eq_iff user u,
)

-- The manager's two maps agree, and no user has an empty map of sessions.
pub record IsLinked (m : ConnectionManager) : Type 0 where
  pub filed :
      (u s : String) → listed u s m.user_sessions ≡ true → lookup s m.session_to_user ≡ some u
  pub back :
      (u s : String) → lookup s m.session_to_user ≡ some u → listed u s m.user_sessions ≡ true
  pub occupied : (u : String) → lookup u m.user_sessions ≢ some []

-- The session is not filed under another user.
abbrev pub OwnOrFree : String → String → ConnectionManager → Type 0
OwnOrFree user session m =
    (lookup session m.session_to_user ≡ none) ⊎ (lookup session m.session_to_user ≡ some user)

insert-ne-nil : {V : Type 0} (k : String) (v : V) (m : Dict V) → insert k v m ≢ []
unfolding insert
insert-ne-nil k v [] h = cc
insert-ne-nil k v ((j, w) ∷ m) h = ground arith

emplace-ne-nil : (k : String) (info : SessionInfo) (m : Dict SessionInfo) → emplace k info m ≢ []
unfolding emplace lookup
emplace-ne-nil k info [] h = insert-ne-nil k info [] h
emplace-ne-nil k info (x ∷ m) h = ground (arith, insert-ne-nil k info (x ∷ m))

put_back-occupied :
    (user u : String) (sessions : Dict SessionInfo) (m : Dict (Dict SessionInfo))
    → lookup u m ≢ some []
    → lookup u (put_back user sessions m) ≢ some []
unfolding put_back
put_back-occupied user u [] m h e = ground (arith, lookup-erase user u m)
put_back-occupied user u (x ∷ sessions) m h e =
    ground (arith, lookup-insert user u (x ∷ sessions) m)

drop_session-occupied :
    (user session u : String) (m : Dict (Dict SessionInfo))
    → lookup u m ≢ some []
    → lookup u (drop_session user session m) ≢ some []
unfolding drop_session
drop_session-occupied user session u m h = elim (Option-cases (lookup user m)) [
  | inl e ↦ rw (e, drop_session) h
  | inr (ss, e) ↦ rw (e, drop_session) (put_back-occupied user u (erase session ss) m h)
]

-- addConnection, called with the mutex free for a session that no other user has, returns with the
-- mutex free; afterwards the maps agree if they did before, and exactly the new session has been
-- added to what is listed.
pub add_connection-IsLinked :
    (user session ip : String) (now : ℕ) (m : ConnectionManager)
    → m.locked ≡ false
    → OwnOrFree user session m
    → IsLinked m
    → (m' : ConnectionManager) × (add_connection user session ip now m ≡ done tt m')
      × IsLinked m'
      × (m'.locked ≡ false)
      × ((u s : String)
          → listed u s m'.user_sessions
            ≡ (if (user == u) && (session == s) then true else listed u s m.user_sessions))
unfolding add_connection
add_connection-IsLinked user session ip now m free own linked = (
  m',
  rw (free, with_lock) refl,
  record {
    filed = λ u s h.
        ground (arith, added u s, filed_back s, linked.filed u s, eq_iff user u, eq_iff session s);
    back = λ u s h.
        ground (arith, added u s, filed_back s, linked.back u s, eq_iff user u, eq_iff session s);
    occupied = λ u h. ground (
      arith,
      lookup-insert user u (emplace session info (lookup_or [] user m.user_sessions))
          m.user_sessions,
      emplace-ne-nil session info (lookup_or [] user m.user_sessions),
      linked.occupied u,
    );
  },
  refl,
  added,
)
  where
    info : SessionInfo
    info = record { session_id = session; last_activity = now; ip_address = ip }

    m' : ConnectionManager
    m' = record {
      user_sessions =
          insert user (emplace session info (lookup_or [] user m.user_sessions)) m.user_sessions;
      session_to_user = insert session user m.session_to_user;
      locked = false;
    }

    added :
        (u s : String)
        → listed u s m'.user_sessions
          ≡ (if (user == u) && (session == s) then true else listed u s m.user_sessions)
    added u s = listed-add user session u s info m.user_sessions

    filed_back :
        (s : String)
        → lookup s m'.session_to_user
          ≡ (if session == s then some user else lookup s m.session_to_user)
    filed_back s = lookup-insert session s user m.session_to_user

-- removeConnection, called with the mutex free for a session that no other user has, returns with
-- the mutex free; afterwards the maps agree if they did before, and exactly that session has been
-- taken from what is listed.
pub remove_connection-IsLinked :
    (user session : String) (m : ConnectionManager)
    → m.locked ≡ false
    → OwnOrFree user session m
    → IsLinked m
    → (m' : ConnectionManager) × (remove_connection user session m ≡ done tt m')
      × IsLinked m'
      × (m'.locked ≡ false)
      × ((u s : String)
          → listed u s m'.user_sessions
            ≡ (if (user == u) && (session == s) then false else listed u s m.user_sessions))
unfolding remove_connection
remove_connection-IsLinked user session m free own linked = (
  m',
  rw (free, with_lock) refl,
  record {
    filed = λ u s h.
        ground (arith, dropped u s, erased s, linked.filed u s, eq_iff user u, eq_iff session s);
    back = λ u s h.
        ground (arith, dropped u s, erased s, linked.back u s, eq_iff user u, eq_iff session s);
    occupied = λ u. drop_session-occupied user session u m.user_sessions (linked.occupied u);
  },
  refl,
  dropped,
)
  where
    m' : ConnectionManager
    m' = record {
      user_sessions = drop_session user session m.user_sessions;
      session_to_user = erase session m.session_to_user;
      locked = false;
    }

    dropped :
        (u s : String)
        → listed u s m'.user_sessions
          ≡ (if (user == u) && (session == s) then false else listed u s m.user_sessions)
    dropped u s = listed-drop user session u s m.user_sessions

    erased :
        (s : String)
        → lookup s m'.session_to_user ≡ (if session == s then none else lookup s m.session_to_user)
    erased s = lookup-erase session s m.session_to_user
