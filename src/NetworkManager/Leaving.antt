-- ===== src/NetworkManager/Leaving.antt =====
-- disconnectFromServer of Qtclient/backend/networkmanager.cpp, and the socket's own report that it is disconnected.
use qt_web_server_chat.Base.{
  ℕ, suc, false, List, [], ◌∷◌, ◌≡◌, refl, sym, ◌∙◌, arith, ◌==◌, if◌then◌else◌, eq_iff, Bool-cases,
  inl, inr,
}
use qt_web_server_chat.NetworkManager.{
  WebSocket, NetworkManager, Signal, Notice, disconnected, error, current_username_changed, emit,
  connection_state_changed, clear_username, clear_user_id, on_disconnected, on_error, notify,
  notify_all, on_socket, disconnect_from_server, is_unconnected,
}

module _ {J A : Type 0} where
  abbrev renamed : Signal J A → ℕ → ℕ
  renamed (current_username_changed u) n = suc n
  renamed _ n = n

  -- The changes of the user's name that were signalled.
  unfoldable pub renamings : List (Signal J A) → ℕ
  renamings [] = 0
  renamings (m ∷ ms) = renamed m (renamings ms)

module _ {Net J A : Type 0} where
  -- The changes, with the one that is still to be signalled when the user leaves.
  due : NetworkManager Net J A → ℕ
  due s = if s.current_username == "" then renamings s.signals else suc (renamings s.signals)

  clear_username-due : (s : NetworkManager Net J A) → due (clear_username s) ≡ due s
  unfolding due clear_username renamings
  clear_username-due s = elim (Bool-cases (s.current_username == "")) [
    | inl e ↦ simp e
    | inr e ↦ simp e
  ]

  clear_user_id-due : (s : NetworkManager Net J A) → due (clear_user_id s) ≡ due s
  unfolding due clear_user_id renamings
  clear_user_id-due s = elim (Bool-cases (s.current_user_id == "")) [
    | inl e ↦ simp e
    | inr e ↦ simp e
  ]

  IsNobody : NetworkManager Net J A → Type 0
  IsNobody s = (s.current_username ≡ "") × (s.current_user_id ≡ "")

  username-clear_username : (s : NetworkManager Net J A) → (clear_username s).current_username ≡ ""
  unfolding clear_username
  username-clear_username s = elim (Bool-cases (s.current_username == "")) [
    | inl e ↦ rw (e, clear_username) ((eq_iff s.current_username "").0 e)
    | inr e ↦ rw (e, clear_username) refl
  ]

  -- The second clearing leaves the name as it is, and no id.
  clear_user_id_lem :
      (s : NetworkManager Net J A)
      → ((clear_user_id s).current_username ≡ s.current_username)
        × ((clear_user_id s).current_user_id ≡ "")
  unfolding clear_user_id
  clear_user_id_lem s = elim (Bool-cases (s.current_user_id == "")) [
    | inl e ↦ simp (e, clear_user_id) (refl, (eq_iff s.current_user_id "").0 e)
    | inr e ↦ simp (e, clear_user_id) (refl, refl)
  ]

  -- The two clearings leave nobody.
  clear-IsNobody : (s : NetworkManager Net J A) → IsNobody (clear_user_id (clear_username s))
  unfolding IsNobody
  clear-IsNobody s =
      let h = clear_user_id_lem (clear_username s) in (h.0 ∙ username-clear_username s, h.1)

  nobody-due : (s : NetworkManager Net J A) → IsNobody s → due s ≡ renamings s.signals
  unfolding due IsNobody
  nobody-due s h = rw (h.0) refl

module _ {Net J A : Type 0} (web : WebSocket Net) where
  notify-due : (n : Notice) (s : NetworkManager Net J A) → due (notify web n s) ≡ due s
  unfolding notify on_disconnected on_error due renamings
  notify-due disconnected s =
      clear_user_id-due (clear_username (emit (connection_state_changed false) s))
      ∙ clear_username-due (emit (connection_state_changed false) s)
  notify-due error s = refl

  notify_all-due :
      (ns : List Notice) (s : NetworkManager Net J A) → due (notify_all web ns s) ≡ due s
  unfolding notify_all
  notify_all-due [] s = refl
  notify_all-due (n ∷ ns) s = notify_all-due ns (notify web n s) ∙ notify-due n s

  abort-due : (s : NetworkManager Net J A) → due (on_socket web web.abort s) ≡ due s
  unfolding on_socket due
  abort-due s = notify_all-due (web.abort s.web_socket).0 _

  -- disconnectFromServer leaves no user, and signals the change of the name exactly once if there
  -- was a user and not at all if there was none, whatever the socket reports while it is aborted,
  -- also if this is that it is disconnected, once or several times.
  pub disconnect_from_server_lem :
      (s : NetworkManager Net J A)
      → ((disconnect_from_server web s).current_username ≡ "")
        × ((disconnect_from_server web s).current_user_id ≡ "")
        × (renamings (disconnect_from_server web s).signals
            ≡ (if s.current_username == "" then renamings s.signals else suc (renamings s.signals)))
  unfolding disconnect_from_server due IsNobody
  disconnect_from_server_lem s =
      let t = if is_unconnected (web.state s.web_socket) then s else on_socket web web.abort s in
      let nobody = clear-IsNobody t in
      (
        nobody.0,
        nobody.1,
        sym (nobody-due (clear_user_id (clear_username t)) nobody)
            ∙ clear_user_id-due (clear_username t)
            ∙ clear_username-due t
            ∙ ground (arith, abort-due s),
      )
