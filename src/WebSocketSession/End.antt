-- ===== src/WebSocketSession/End.antt =====
-- The end of a session of Services/GateServer/websocket_session.cpp.
use mathlib.Core.Path.{ap₂}
use qt_web_server_chat.Base.{
  ℕ, ◌≡◌, refl, String, Bool, true, false, none, some, ◌∷◌, arith, ◌==◌, if◌then◌else◌, ℤ, stoi,
  Outcome, done, thrown, blocked, Exec, pure, Returns, Settles, Calm, Calm-bind, Calm-pure,
  Calm-option, continue-Returns, ◌∙◌, try_catch, inl, inr, Option-cases,
}
use qt_web_server_chat.RedisManager.{Hiredis, RedisManager}
use qt_web_server_chat.RedisManager.Pool.{IsReady}
use qt_web_server_chat.StatusClientManager.{Client, release_client, push_back}
use qt_web_server_chat.StatusService.{UserStatus, offline}
use qt_web_server_chat.StatusService.CacheLocks.{hset-Calm}
use qt_web_server_chat.WebSocketManager.{WebSocketManager, get_session, get-remove_session}
use qt_web_server_chat.WebSocketSession.{
  WebSocketSession, on_redis, give_back, call_rpc, cache_status, report_status, update_user_status,
  unregister, fail,
}

module _ {Net : Type 0} (hiredis : Hiredis Net)
    (rpc : Client → ℤ → UserStatus → String → Net → Bool × Net) where
  call_rpc-IsReady :
      (c : Client) (user_id : ℤ) (st : UserStatus) (session_id : String)
      → Calm IsReady (call_rpc hiredis rpc c user_id st session_id)
  unfolding call_rpc
  call_rpc-IsReady c user_id st session_id = record {
    at = λ r p. record { free = p.free; pool_free = p.pool_free; within = p.within };
  }

  cache_status-IsReady :
      (time : ℕ) (user_id : String) (st : UserStatus) (good : Bool)
      → Calm IsReady (cache_status hiredis rpc time user_id st good)
  unfolding cache_status
  cache_status-IsReady time user_id st false = Calm-pure IsReady tt
  cache_status-IsReady time user_id st true =
      Calm-bind (hset-Calm hiredis _ _ _)
        λ a. Calm-bind (hset-Calm hiredis _ _ _) λ b. Calm-pure IsReady tt

  report_status-IsReady :
      (time : ℕ) (c : Client) (user_id session_id : String) (st : UserStatus)
      → Calm IsReady (report_status hiredis rpc time c user_id session_id st)
  unfolding report_status
  report_status-IsReady time c user_id session_id st =
      Calm-option (stoi user_id) (record { at = λ r p. p })
        λ id. Calm-bind (call_rpc-IsReady c id st session_id) (cache_status-IsReady time user_id st)

  -- What a report of the status leaves as it was.
  Kept : WebSocketSession Net → WebSocketSession Net → Type 0
  Kept s t =
      (t.user_id ≡ s.user_id)
      × (t.sessions ≡ s.sessions)
      × (t.clients ≡ s.clients)
      × (t.status_client ≡ s.status_client)
      × (t.client_acquired ≡ s.client_acquired)

  caught :
      (m : Exec (RedisManager Net) (Unit {0})) (s : WebSocketSession Net)
      → Settles IsReady (m s.redis)
      → Returns (Kept s) (on_redis (try_catch m (pure tt)) s)
  unfolding Kept
  caught m s p = go (m s.redis) p
    where
      go :
          (r : Outcome (RedisManager Net) (Unit {0}))
          → Settles IsReady r
          → Returns (Kept s) (on_redis (try_catch (λ x. r) (pure tt)) s)
      go (done a t) q = (refl, refl, refl, refl, refl)
      go (thrown t) q = (refl, refl, refl, refl, refl)
      go blocked q = q

  update_user_status-Kept :
      (time : ℕ) (st : UserStatus) (s : WebSocketSession Net)
      → IsReady s.redis
      → Returns (Kept s) (update_user_status hiredis rpc time st s)
  unfolding update_user_status Kept
  update_user_status-Kept time st s ready = elim (Option-cases s.status_client) [
    | inl e ↦ ground arith
    | inr (c, e) ↦ ground (
      arith,
      caught (report_status hiredis rpc time c s.user_id s.session_id st) s
          ((report_status-IsReady time c s.user_id s.session_id st).at s.redis ready),
    )
  ]

  -- The session's user has no session any more, and the client is still there.
  Gone : WebSocketSession Net → WebSocketSession Net → Type 0
  Gone s t =
      ((other : String)
        → get_session t.sessions other
          ≡ (if s.user_id == other then none else get_session s.sessions other))
      × (t.clients ≡ s.clients)
      × (t.status_client ≡ s.status_client)
      × (t.client_acquired ≡ s.client_acquired)

  unregister-Gone :
      (time : ℕ) (s : WebSocketSession Net)
      → IsReady s.redis
      → (s.user_id == "") ≡ false
      → Returns (Gone s) (unregister hiredis rpc time s)
  unfolding unregister Gone Kept
  unregister-Gone time s ready named = rw named (
      continue-Returns (update_user_status hiredis rpc time offline s) _
        (update_user_status-Kept time offline s ready)
        λ a. record {
          at = λ t k. (
            (λ other.
                get-remove_session t.sessions t.user_id other
                ∙ ap₂
                    (λ (u : String) (m : WebSocketManager).
                      if u == other then none else get_session m other)
                    k.0 k.1),
            k.2,
            k.3,
            k.4,
          );
        })

  -- fail on a session with a user and a status client from the pool, with the managers' mutexes
  -- free and Redis's pool within its size, returns; afterwards the manager has no session for that user, also if
  -- another one had been registered for the user meanwhile, the other users' sessions are as
  -- before, and the client is back in the pool and no longer the session's.
  pub fail_lem :
      (time : ℕ) (c : Client) (s : WebSocketSession Net)
      → IsReady s.redis
      → s.clients.locked ≡ false
      → s.clients.initialized ≡ true
      → (s.user_id == "") ≡ false
      → s.status_client ≡ some c
      → s.client_acquired ≡ true
      → Returns
          (λ t.
            ((other : String)
              → get_session t.sessions other
                ≡ (if s.user_id == other then none else get_session s.sessions other))
            × (t.clients.client_pool ≡ c ∷ s.clients.client_pool)
            × (t.clients.locked ≡ false)
            × (t.status_client ≡ none))
          (fail hiredis rpc time s)
  unfolding fail Gone give_back release_client push_back
  fail_lem time c s ready free pooled named client acquired =
      continue-Returns (unregister hiredis rpc time s) _ (unregister-Gone time s ready named)
        λ a. record { at = λ t g. ground (arith, g.0) }
