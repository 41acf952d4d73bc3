-- ===== src/NetworkManager/Proxy.antt =====
-- The proxy of the client of Qtclient/backend/networkmanager.cpp: what the network library was told, and when.
use qt_web_server_chat.Base.{
  Bool, Option, none, some, List, [], ◌∷◌, ◌≡◌, refl, arith, if◌then◌else◌,
}
use qt_web_server_chat.NetworkManager.{
  Json, WebSocket, NetworkManager, Signal, ProxyType, default_proxy, no_proxy, use_proxy_changed,
  construct, set_use_proxy, clear_username, clear_user_id, on_connected,
}
use qt_web_server_chat.NetworkManager.Replies.{set_user}
use qt_web_server_chat.NetworkManager.Events.{Event, run, run-keeps}
use qt_web_server_chat.NetworkManager.Stable.{IsPlain, IsStable, handle-IsStable}

module _ {J A : Type 0} where
  abbrev changed : Bool → Signal J A → Option ProxyType → Option ProxyType
  changed b (use_proxy_changed x) o = some (if b then default_proxy else no_proxy)
  changed b _ o = o

  -- The type that the property asks for, if its change was ever signalled.
  unfoldable pub chosen : Bool → List (Signal J A) → Option ProxyType
  chosen b [] = none
  chosen b (m ∷ ms) = changed b m (chosen b ms)

  changed-plain : (b : Bool) (m : Signal J A) (o : Option ProxyType) → IsPlain m → changed b m o ≡ o
  changed-plain b (use_proxy_changed x) o h = absurd h
  changed-plain b _ o h = refl

-- Both users of the proxy have the same, and it is the one that the property asks for.
unfoldable pub IsProxied : {Net J A : Type 0} → NetworkManager Net J A → Type 0
IsProxied s = (s.socket_proxy ≡ s.http_proxy) × (s.http_proxy ≡ chosen s.use_proxy s.signals)

module _ {Net J A : Type 0} where
  IsProxied-IsStable : IsStable {Net = Net} {J = J} {A = A} IsProxied
  unfolding IsProxied chosen clear_username clear_user_id set_use_proxy set_user
  IsProxied-IsStable = record {
    plain =
        λ m s h p. (p.0, cc (changed-plain s.use_proxy m (chosen s.use_proxy s.signals) h, p.1));
    network = λ n s p. p;
    request = λ ps s p. p;
    server = λ u s p. p;
    authorised = λ t s p. p;
    user = λ u i s p. ground arith;
    no_username = λ s p. ground arith;
    no_user_id = λ s p. ground arith;
    proxy = λ b s p. ground arith;
  }

  connected-IsProxied : (s : NetworkManager Net J A) → IsProxied s → IsProxied (on_connected s)
  unfolding IsProxied chosen on_connected
  connected-IsProxied s p = p

construct-IsProxied : (Net J A : Type 0) (net : Net) → IsProxied (construct {J = J} {A = A} net)
unfolding IsProxied construct set_use_proxy chosen
construct-IsProxied Net J A net = (refl, refl)

module _ {Net J A : Type 0} (json : Json J A) (web : WebSocket Net) where
  -- After any history of a new client, the requests and the socket use the same proxy: the one that
  -- the property useProxy stands for, if a change of it was ever signalled, and else none was set,
  -- so that a client whose property was never changed has not been told to use no proxy.
  pub run-IsProxied :
      (net : Net) (es : List (Event Net J)) → IsProxied (run {A = A} json web es (construct net))
  run-IsProxied net es =
      run-keeps json web IsProxied
        (handle-IsStable json web (λ n. IsProxied) (λ n. IsProxied-IsStable)
          (λ n. connected-IsProxied) 0)
        es (construct net) (construct-IsProxied Net J A net)
