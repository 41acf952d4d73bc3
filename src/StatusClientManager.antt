-- ===== src/StatusClientManager.antt =====
-- Services/GateServer/status_client_manager.{h,cpp}: a pool of clients of the status service. A
-- client is the address of its channel, which is all that tells clients apart here; a null pointer is
-- `none`. The balancer is the program's single one. `locked` is the calling thread's hold of
-- `pool_mutex_`.
pub mod Pool
use Prim.Native.String.{◌++◌}
use qt_web_server_chat.Base.{
  ℕ, zero, suc, String, Bool, true, false, Option, none, some, List, [], ◌∷◌, if◌then◌else◌, pos,
  to_string, Exec, pure, with_lock, ◌>>=◌, ◌>>◌,
}
use qt_web_server_chat.LoadBalancer.{ServiceInstance, LoadBalancer, get_next_healthy_instance}

abbrev pub Client : Type 0
Client = String

-- The head of `client_pool` is the back of the vector.
pub record StatusClientManager : Type 0 where
  pub initialized : Bool
  pub server_address : String
  pub service_name : String
  pub client_pool : List Client
  pub load_balancer : LoadBalancer
  pub locked : Bool

abbrev pub locking : {A : Type 0} → Exec StatusClientManager A → Exec StatusClientManager A
locking = with_lock (λ s. s.locked) (λ b s. record s { locked = b })

-- A client of an instance.
unfoldable pub create_client : ServiceInstance → Client
create_client i = i.host ++ ":" ++ to_string (pos i.port)

-- The balancer's choice, by round-robin.
unfoldable pub next_instance : Exec StatusClientManager (Option ServiceInstance)
next_instance s =
    let (chosen, balancer) =
      get_next_healthy_instance (λ lo hi. lo) s.load_balancer s.service_name "round_robin" in
    pure chosen (record s { load_balancer = balancer })

unfoldable pub push_back : Client → Exec StatusClientManager (Unit {0})
push_back c s = pure tt (record s { client_pool = c ∷ s.client_pool })

-- The loop of initialize, by the clients that are left to make.
unfoldable pub fill : ℕ → Exec StatusClientManager (Unit {0})
unfolding next_instance push_back create_client
fill zero = pure tt
fill (suc n) = next_instance >>= λ chosen. elim chosen [
  | some i ↦ (push_back (create_client i) >> fill n)
  | none ↦ fill n
]

unfoldable pub initialize : ℕ → String → Exec StatusClientManager (Unit {0})
unfolding fill
initialize pool_size service_name s =
    if s.initialized
    then pure tt s
    else locking (fill pool_size >> λ t. pure tt (record t { initialized = true }))
        (record s { service_name = service_name })

-- acquireClient on an empty pool.
unfoldable pub new_client : Exec StatusClientManager Client
unfolding next_instance create_client
new_client = next_instance >>= λ chosen. elim chosen [
  | some i ↦ pure (create_client i)
  | none ↦ (λ s. pure s.server_address s)
]

unfoldable pub acquire_client : Exec StatusClientManager Client
unfolding new_client
acquire_client s =
    if s.initialized
    then locking
        (λ t. elim t.client_pool [
          | [] ↦ new_client t
          | c ∷ rest ↦ pure c (record t { client_pool = rest })
        ])
        s
    else pure s.server_address s

unfoldable pub release_client : Option Client → Exec StatusClientManager (Unit {0})
unfolding push_back
release_client none s = pure tt s
release_client (some c) s = if s.initialized then locking (push_back c) s else pure tt s
