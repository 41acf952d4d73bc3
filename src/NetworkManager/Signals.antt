-- ===== src/NetworkManager/Signals.antt =====
-- What QML sees of the client of Qtclient/backend/networkmanager.cpp: the three properties, as the
-- signals tell them.
use qt_web_server_chat.Base.{String, Bool, List, [], ◌∷◌, ◌≡◌, refl, arith}
use qt_web_server_chat.NetworkManager.{
  Json, WebSocket, NetworkManager, Signal, connection_state_changed, login_response_received,
  register_response_received, message_received, add_friend_response_received, friends_list_received,
  chat_history_received, search_user_response_received, error_occurred, use_proxy_changed,
  current_username_changed, current_user_id_changed, construct, set_use_proxy, clear_username,
  clear_user_id, on_connected,
}
use qt_web_server_chat.NetworkManager.Replies.{set_user}
use qt_web_server_chat.NetworkManager.Events.{Event, run, run-keeps}
use qt_web_server_chat.NetworkManager.Stable.{IsPlain, IsStable, handle-IsStable}

-- The values of the properties that a QML page holds.
pub record View : Type 0 where
  pub use_proxy : Bool
  pub current_username : String
  pub current_user_id : String

module _ {J A : Type 0} where
  abbrev pub see : Signal J A → View → View
  see (use_proxy_changed b) v = record v { use_proxy = b }
  see (current_username_changed u) v = record v { current_username = u }
  see (current_user_id_changed u) v = record v { current_user_id = u }
  see _ v = v

  -- The page reads the values at first and then follows the signals.
  unfoldable pub observe : View → List (Signal J A) → View
  observe v [] = v
  observe v (m ∷ ms) = see m (observe v ms)

module _ {Net J A : Type 0} where
  unfoldable pub properties : NetworkManager Net J A → View
  properties s = record {
    use_proxy = s.use_proxy;
    current_username = s.current_username;
    current_user_id = s.current_user_id;
  }

  Shown : View → NetworkManager Net J A → Type 0
  Shown v s = observe v s.signals ≡ properties s

module _ {J A : Type 0} where
  see-plain : (m : Signal J A) (w : View) → IsPlain m → see m w ≡ w
  see-plain (connection_state_changed b) w h = refl
  see-plain (login_response_received b m) w h = refl
  see-plain (register_response_received b m) w h = refl
  see-plain (message_received obj) w h = refl
  see-plain (add_friend_response_received b m) w h = refl
  see-plain (friends_list_received a) w h = refl
  see-plain (chat_history_received a) w h = refl
  see-plain (search_user_response_received a) w h = refl
  see-plain (error_occurred e) w h = refl
  see-plain (use_proxy_changed b) w h = absurd h
  see-plain (current_username_changed u) w h = absurd h
  see-plain (current_user_id_changed u) w h = absurd h

module _ {Net J A : Type 0} (v : View) where
  Shown-IsStable : IsStable {Net = Net} {J = J} {A = A} (Shown v)
  unfolding Shown observe properties clear_username clear_user_id set_use_proxy set_user
  Shown-IsStable = record {
    plain = λ m s h p. cc (see-plain m (observe v s.signals) h);
    network = λ n s p. p;
    request = λ ps s p. p;
    server = λ u s p. p;
    authorised = λ t s p. p;
    user = λ u i s p. ground arith;
    no_username = λ s p. ground arith;
    no_user_id = λ s p. ground arith;
    proxy = λ b s p. ground arith;
  }

module _ {Net J A : Type 0} (json : Json J A) (web : WebSocket Net) where
  connected-Shown : (v : View) (s : NetworkManager Net J A) → Shown v s → Shown v (on_connected s)
  unfolding Shown observe on_connected properties
  connected-Shown v s p = p

  Shown-run :
      (v : View) (es : List (Event Net J)) (s : NetworkManager Net J A)
      → Shown v s
      → Shown v (run json web es s)
  Shown-run v =
      run-keeps json web (Shown v)
        (handle-IsStable json web (λ n. Shown v) (λ n. Shown-IsStable v) (λ n. connected-Shown v) 0)

  -- After any history of a new client, a page that has read the three properties at the start and
  -- then followed the signals holds the values that the properties have.
  pub observe-run :
      (net : Net) (es : List (Event Net J))
      → observe
          (properties (construct {J = J} {A = A} net))
          (run json web es (construct net)).signals
        ≡ properties {A = A} (run json web es (construct net))
  unfolding Shown construct set_use_proxy observe
  observe-run net es = Shown-run (properties (construct net)) es (construct net) refl
