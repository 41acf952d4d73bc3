-- ===== src/StatusClientManager/Pool.antt =====
-- The pool of Services/GateServer/status_client_manager.cpp.
use qt_web_server_chat.Base.{
  ℕ, zero, suc, ◌+◌, ◌≡◌, refl, String, true, false, some, List, [], ◌∷◌, arith, length, done,
  ◌>>=◌, Returns, Memᴰ,
}
use qt_web_server_chat.LoadBalancer.{
  ServiceInstance, LoadBalancer, get_next_healthy_instance, get_service_instances,
}
use qt_web_server_chat.LoadBalancer.Selection.{InRange, get_next_healthy_instance-available}
use qt_web_server_chat.LoadBalancer.Filing.{get_next-instances}
use qt_web_server_chat.StatusClientManager.{
  Client, StatusClientManager, create_client, next_instance, push_back, fill, initialize,
  new_client, acquire_client, release_client,
}

-- A client that is acquired from an initialised manager with a client in its pool and given back
-- leaves the manager as it was, with the mutex free.
pub release-acquire_client :
    (s : StatusClientManager) (c : Client) (rest : List Client)
    → s.locked ≡ false
    → s.initialized ≡ true
    → s.client_pool ≡ c ∷ rest
    → (acquire_client >>= λ d. release_client (some d)) s ≡ done tt s
unfolding acquire_client release_client push_back
release-acquire_client s c rest free ready pool = ground arith

-- A client that is acquired from an initialised manager with an empty pool, and given back, stays
-- in the pool: each such pair makes the pool larger by one, since nothing bounds its size.
pub release-acquire_client_grows :
    (s : StatusClientManager)
    → s.locked ≡ false
    → s.initialized ≡ true
    → s.client_pool ≡ []
    → Returns
        (λ t. (length t.client_pool ≡ 1) × (t.locked ≡ false))
        ((acquire_client >>= λ d. release_client (some d)) s)
unfolding acquire_client release_client push_back new_client next_instance
release-acquire_client_grows s free ready pool = ground arith

lowest : InRange (λ lo hi. lo)
lowest lo hi h = (ground arith, h)

-- A healthy instance of the service is registered.
abbrev pub IsServed : ServiceInstance → StatusClientManager → Type 0
IsServed i s = Memᴰ i (get_service_instances s.load_balancer s.service_name) × (i.is_healthy ≡ true)

IsServed-next :
    (i : ServiceInstance) (s : StatusClientManager) (lb : LoadBalancer) (pool : List Client)
    → lb.service_instances ≡ s.load_balancer.service_instances
    → IsServed i s
    → IsServed i (record s { load_balancer = lb; client_pool = pool })
unfolding get_service_instances
IsServed-next i s lb pool same (m, up) = (rw same m, up)

fill_served :
    (n : ℕ) (i : ServiceInstance) (s : StatusClientManager)
    → IsServed i s
    → s.locked ≡ true
    → Returns
        (λ t. (length t.client_pool ≡ n + length s.client_pool) × (t.locked ≡ true))
        (fill n s)
unfolding fill next_instance push_back
fill_served zero i s served held = (ground arith, held)
fill_served (suc n) i s (m, up) held =
    let next =
      get_next_healthy_instance (λ lo hi. lo) s.load_balancer s.service_name "round_robin" in
    let (j, chosen) =
      get_next_healthy_instance-available (λ lo hi. lo) lowest s.load_balancer s.service_name
        "round_robin" i m up in
    let pool = create_client j ∷ s.client_pool in
    ground (
      arith,
      chosen,
      fill_served n i (record s { load_balancer = next.1; client_pool = pool })
          (IsServed-next i s next.1 pool
            (get_next-instances (λ lo hi. lo) s.load_balancer s.service_name "round_robin") (m, up))
          held,
    )

-- initialize of a manager that is not initialised, with the mutex free, when a healthy instance
-- of the service is registered: it returns with as many clients more as were asked for, initialised and with the
-- mutex free.
pub initialize_served :
    (n : ℕ) (service_name : String) (i : ServiceInstance) (s : StatusClientManager)
    → s.locked ≡ false
    → s.initialized ≡ false
    → Memᴰ i (get_service_instances s.load_balancer service_name)
    → i.is_healthy ≡ true
    → Returns
        (λ t.
          (length t.client_pool ≡ n + length s.client_pool)
          × (t.initialized ≡ true)
          × (t.locked ≡ false))
        (initialize n service_name s)
unfolding initialize
initialize_served n service_name i s free new m up =
    ground (
      arith,
      fill_served n i (record s { service_name = service_name; locked = true }) (m, up) refl,
    )
