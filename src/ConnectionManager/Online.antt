-- ===== src/ConnectionManager/Online.antt =====
-- isUserOnline and updateSessionActivity of Services/GateServer/connection_manager.cpp.
use qt_web_server_chat.Base.{
  ℕ, ◌≡◌, ◌≢◌, ◌≢◌, refl, sym, ◌∙◌, ◌⊎◌, inl, inr, String, true, false, none, some, [], ◌∷◌, arith,
  eq_iff, Dict, lookup, insert, lookup-insert, lookup_or-none, lookup_or-some, lookup_or-insert,
  Option-cases, done, with_lock,
}
use qt_web_server_chat.ConnectionManager.{
  SessionInfo, ConnectionManager, is_some, is_user_online, touch, touch_user,
}
use qt_web_server_chat.ConnectionManager.Links.{listed, IsLinked}

head-listed :
    (u s : String) (info : SessionInfo) (rest : Dict SessionInfo) (m : Dict (Dict SessionInfo))
    → lookup u m ≡ some ((s, info) ∷ rest)
    → listed u s m ≡ true
unfolding listed lookup
head-listed u s info rest m e =
    ground (arith, lookup_or-some {V = Dict SessionInfo} [] u m e, eq_iff s s)

unlisted :
    (user s : String) (m : Dict (Dict SessionInfo)) → lookup user m ≡ none → listed user s m ≡ false
unfolding listed lookup
unlisted user s m e = rw (lookup_or-none {V = Dict SessionInfo} [] user m e) refl

-- isUserOnline, called with the mutex free on a manager whose maps agree, changes nothing, and
-- either answers true and some session is filed to the user, or answers false and none is.
pub is_user_online_iff :
    (user : String) (m : ConnectionManager)
    → m.locked ≡ false
    → IsLinked m
    → ((is_user_online user m ≡ done true m)
        × ((s : String) × (lookup s m.session_to_user ≡ some user)))
      ⊎ ((is_user_online user m ≡ done false m)
          × ((s : String) → lookup s m.session_to_user ≢ some user))
unfolding is_user_online
is_user_online_iff user m free linked = elim (Option-cases (lookup user m.user_sessions)) [
  | inl e ↦ inr (
    rw (free, with_lock) (rw (e, is_some) refl),
    (λ s filed. absurd (cc (sym (linked.back user s filed) ∙ unlisted user s m.user_sessions e))),
  )
  | inr ([], e) ↦ absurd (linked.occupied user e)
  | inr ((s, info) ∷ rest, e) ↦ inl (
    rw (free, with_lock) (rw (e, is_some) refl),
    (s, linked.filed user s (head-listed user s info rest m.user_sessions e)),
  )
]

pub listed-touch :
    (now : ℕ) (user session u s : String) (m : Dict (Dict SessionInfo))
    → listed u s (touch_user now user session m) ≡ listed u s m
unfolding listed touch_user touch
listed-touch now user session u s m = elim (Option-cases (lookup user m)) [
  | inl e ↦ rw (e, touch_user) refl
  | inr (ss, e) ↦
      rw (e, touch_user)
        (elim (Option-cases (lookup session ss)) [
          | inl f ↦
              rw (f, touch)
                (ground (
                  arith,
                  lookup_or-insert {V = Dict SessionInfo} [] user u ss m,
                  lookup_or-some {V = Dict SessionInfo} [] user m e,
                  eq_iff user u,
                ))
          | inr (info, f) ↦
              rw (f, touch)
                (ground (
                  arith,
                  lookup_or-insert {V = Dict SessionInfo} [] user u
                      (insert session (record info { last_activity = now }) ss) m,
                  lookup_or-some {V = Dict SessionInfo} [] user m e,
                  lookup-insert session s (record info { last_activity = now }) ss,
                  eq_iff user u,
                  eq_iff session s,
                ))
        ])
]
