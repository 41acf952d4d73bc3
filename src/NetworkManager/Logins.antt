-- ===== src/NetworkManager/Logins.antt =====
-- When the client of Qtclient/backend/networkmanager.cpp tells QML that a login has succeeded.
use qt_web_server_chat.Base.{ℕ, suc, ◌+◌, true, false, List, [], ◌∷◌, ◌≡◌, refl, ap, arith}
use qt_web_server_chat.NetworkManager.{
  Json, WebSocket, NetworkManager, Signal, connection_state_changed, login_response_received,
  register_response_received, message_received, add_friend_response_received, friends_list_received,
  chat_history_received, search_user_response_received, error_occurred, use_proxy_changed,
  current_username_changed, current_user_id_changed, set_use_proxy, clear_username, clear_user_id,
  on_connected,
}
use qt_web_server_chat.NetworkManager.Replies.{set_user}
use qt_web_server_chat.NetworkManager.Events.{Event, socket_connected, handle, run}
use qt_web_server_chat.NetworkManager.Stable.{IsPlain, IsStable, opened, handle-IsStable}

module _ {J A : Type 0} where
  abbrev announced : Signal J A → ℕ → ℕ
  announced (login_response_received true m) n = suc n
  announced _ n = n

  -- The signals that tell of a successful login.
  unfoldable pub logins : List (Signal J A) → ℕ
  logins [] = 0
  logins (m ∷ ms) = announced m (logins ms)

  announced-plain : (m : Signal J A) (n : ℕ) → IsPlain m → announced m n ≡ n
  announced-plain (connection_state_changed b) n h = refl
  announced-plain (login_response_received true m) n h = absurd (cc)
  announced-plain (login_response_received false m) n h = refl
  announced-plain (register_response_received b m) n h = refl
  announced-plain (message_received obj) n h = refl
  announced-plain (add_friend_response_received b m) n h = refl
  announced-plain (friends_list_received a) n h = refl
  announced-plain (chat_history_received a) n h = refl
  announced-plain (search_user_response_received a) n h = refl
  announced-plain (error_occurred e) n h = refl
  announced-plain (use_proxy_changed b) n h = absurd h
  announced-plain (current_username_changed u) n h = absurd h
  announced-plain (current_user_id_changed u) n h = absurd h

-- The connections that a history opens.
abbrev pub connections : {Net J : Type 0} → List (Event Net J) → ℕ
connections [] = 0
connections (e ∷ es) = opened e (connections es)

opened-add : {Net J : Type 0} (e : Event Net J) (a n : ℕ) → opened e a + n ≡ a + opened e n
opened-add socket_connected a n = omega arith
opened-add _ a n = refl

module _ {Net J A : Type 0} where
  Announced : ℕ → NetworkManager Net J A → Type 0
  Announced n s = logins s.signals ≡ n

  Announced-IsStable : (n : ℕ) → IsStable {Net = Net} {J = J} {A = A} (Announced n)
  unfolding Announced logins clear_username clear_user_id set_use_proxy set_user
  Announced-IsStable n = record {
    plain = λ m s h p. cc (announced-plain m (logins s.signals) h);
    network = λ k s p. p;
    request = λ ps s p. p;
    server = λ u s p. p;
    authorised = λ t s p. p;
    user = λ u i s p. ground arith;
    no_username = λ s p. ground arith;
    no_user_id = λ s p. ground arith;
    proxy = λ b s p. ground arith;
  }

module _ {Net J A : Type 0} (json : Json J A) (web : WebSocket Net) where
  announced_once :
      (e : Event Net J) (s : NetworkManager Net J A)
      → logins (handle json web e s).signals ≡ opened e (logins s.signals)
  unfolding Announced logins on_connected
  announced_once e s =
      handle-IsStable json web Announced Announced-IsStable (λ n t p. ap suc p) (logins s.signals) e
        s refl

  -- After any history, the client has told of as many successful logins as connections of its
  -- socket were opened in it, whatever the replies to its requests were.
  pub logins-run :
      (es : List (Event Net J)) (s : NetworkManager Net J A)
      → logins (run json web es s).signals ≡ connections es + logins s.signals
  unfolding run
  logins-run [] s = omega arith
  logins-run (e ∷ es) s = omega (
    arith,
    logins-run es (handle json web e s),
    announced_once e s,
    opened-add e (connections es) (logins s.signals),
  )
