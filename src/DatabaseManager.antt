-- ===== src/DatabaseManager.antt =====
-- Services/utils/database_manager.{h,cpp}: the connection and the steps that its queries share. The
-- MySQL client library is a parameter: its functions on the state `Srv` of the library and the
-- server, with `true` for success. The connection handle is one, so calls do not name it; neither do
-- they name a statement, since a method has at most one open. `locked` says that the calling thread
-- holds `mutex_`. User ids and ports are natural numbers.
pub mod Users
pub mod Messages
pub mod Connection
pub mod Statements
pub mod Queries
mod Tests
use qt_web_server_chat.Base.{
  ℕ, String, Bool, true, false, Option, none, some, List, [], ◌∷◌, ◌==◌, if◌then◌else◌, Dict, Exec,
  pure, with_lock, ◌>>=◌, ◌>>◌,
}
use qt_web_server_chat.LoadBalancer.{
  ServiceInstance, LoadBalancer, add_service_instance, update_health_status,
  get_next_healthy_instance,
}

-- A bound parameter, or a column of a row: MYSQL_TYPE_LONG or MYSQL_TYPE_STRING.
pub data Value : Type 0 where
  long : ℕ → Value
  text : String → Value

-- What mysql_stmt_fetch returns: 0 with a row, MYSQL_NO_DATA, MYSQL_DATA_TRUNCATED with what fits
-- of the row, or another number.
pub data Fetch : Type 0 where
  row truncated : List Value → Fetch
  no_data failure : Fetch

-- `stmt_fetch_all` lists what the successive calls of mysql_stmt_fetch return.
pub record Mysql (Srv : Type 0) : Type 0 where
  pub init : Srv → Bool × Srv
  pub real_connect : String → ℕ → Srv → Bool × Srv
  pub close : Srv → Srv
  pub ping : Srv → Bool × Srv
  pub query : String → Srv → Bool × Srv
  pub insert_id : Srv → ℕ
  pub stmt_init : Srv → Bool × Srv
  pub stmt_prepare : String → Srv → Bool × Srv
  pub stmt_bind_param : List Value → Srv → Bool × Srv
  pub stmt_bind_result : Srv → Bool × Srv
  pub stmt_execute : Srv → Bool × Srv
  pub stmt_fetch : Srv → Fetch × Srv
  pub stmt_fetch_all : Srv → List Fetch × Srv
  pub stmt_close : Srv → Srv

-- `connection` says that `connection_` is not null.
pub record DatabaseManager (Srv : Type 0) : Type 0 where
  pub srv : Srv
  pub connection : Bool
  pub connected : Bool
  pub current_host : String
  pub current_port : ℕ
  pub load_balancer : LoadBalancer
  pub locked : Bool

-- SERVICE_NAME
abbrev pub service_name : String
service_name = "DatabaseService"

module _ {Srv : Type 0} where
  abbrev pub locking : {A : Type 0} → Exec (DatabaseManager Srv) A → Exec (DatabaseManager Srv) A
  locking = with_lock (λ s. s.locked) (λ b s. record s { locked = b })

  -- A call of the library.
  abbrev pub call : {A : Type 0} → (Srv → A × Srv) → Exec (DatabaseManager Srv) A
  call f s = let (a, srv') = f s.srv in pure a (record s { srv = srv' })

  unfoldable pub add_database_instance : String → ℕ → ℕ → Exec (DatabaseManager Srv) (Unit {0})
  add_database_instance host port weight s = pure tt (record s {
    load_balancer = add_service_instance s.load_balancer service_name host port weight;
  })

  unfoldable pub update_instance_health : String → ℕ → Bool → Exec (DatabaseManager Srv) (Unit {0})
  update_instance_health host port is_healthy s = pure tt (record s {
    load_balancer = update_health_status s.load_balancer service_name host port is_healthy;
  })

  -- updateInstanceHealth(currentHost_, currentPort_, false)
  unfoldable pub mark_unhealthy : Exec (DatabaseManager Srv) (Unit {0})
  unfolding update_instance_health
  mark_unhealthy s = update_instance_health s.current_host s.current_port false s

module _ {Srv : Type 0} (mysql : Mysql Srv) where
  unfoldable pub disconnect : Exec (DatabaseManager Srv) (Unit {0})
  disconnect = locking λ s.
      if s.connection
      then pure tt (record s { srv = mysql.close s.srv; connection = false; connected = false })
      else pure tt s

  -- isConnected_impl
  unfoldable pub is_connected_impl : Exec (DatabaseManager Srv) Bool
  is_connected_impl s = if s.connected then call mysql.ping s else pure false s

  -- mysql_real_connect after a successful mysql_init, and what follows it.
  unfoldable pub try_connect : String → ℕ → Exec (DatabaseManager Srv) Bool
  unfolding mark_unhealthy
  try_connect host port = call (mysql.real_connect host port) >>= λ good.
      if good then (λ s. pure true (record s { connected = true })) else (λ s.
        (mark_unhealthy >> pure false) (record s { srv = mysql.close s.srv; connection = false }))

  -- The part of connect_impl after an instance has been chosen.
  unfoldable pub connect_to : Option ServiceInstance → Exec (DatabaseManager Srv) Bool
  unfolding try_connect mark_unhealthy
  connect_to none = pure false
  connect_to (some i) =
      (λ s. call mysql.init (record s { current_host = i.host; current_port = i.port })) >>= λ made.
      if made
      then (λ s. try_connect i.host i.port (record s { connection = true }))
      else (λ s. (mark_unhealthy >> pure false) (record s { connection = false }))

  -- The default algorithm, round-robin, draws no random number.
  unfoldable pub connect_impl : Exec (DatabaseManager Srv) Bool
  unfolding connect_to
  connect_impl s =
      if s.connected
      then pure true s
      else (let (chosen, balancer) =
            get_next_healthy_instance (λ lo hi. lo) s.load_balancer service_name "round_robin" in
          connect_to chosen (record s { load_balancer = balancer }))

  unfoldable pub connect : Exec (DatabaseManager Srv) Bool
  unfolding connect_impl
  connect = locking connect_impl

  unfoldable pub is_connected : Exec (DatabaseManager Srv) Bool
  unfolding is_connected_impl
  is_connected = locking is_connected_impl

  -- `isConnected_impl() || connect_impl()`, the test at the start of every query.
  unfoldable pub available : Exec (DatabaseManager Srv) Bool
  unfolding is_connected_impl connect_impl
  available = is_connected_impl >>= λ up. if up then pure true else connect_impl

  unfoldable pub stmt_close : Exec (DatabaseManager Srv) (Unit {0})
  stmt_close s = pure tt (record s { srv = mysql.stmt_close s.srv })

  module _ {A : Type 0} where
    -- One step on an open statement: if it fails, the statement is closed and the instance marked.
    unfoldable pub or_abandon :
        A → (Srv → Bool × Srv) → Exec (DatabaseManager Srv) A → Exec (DatabaseManager Srv) A
    unfolding stmt_close mark_unhealthy
    or_abandon failed f rest =
        call f >>= λ good. if good then rest else (stmt_close >> (mark_unhealthy >> pure failed))

    -- mysql_stmt_init, mysql_stmt_prepare and mysql_stmt_bind_param, then the rest of the method.
    unfoldable pub with_statement :
        A → String → List Value → Exec (DatabaseManager Srv) A → Exec (DatabaseManager Srv) A
    unfolding or_abandon mark_unhealthy
    with_statement failed sql params rest = call mysql.stmt_init >>= λ good.
        if good
        then or_abandon failed (mysql.stmt_prepare sql)
            (or_abandon failed (mysql.stmt_bind_param params) rest)
        else (mark_unhealthy >> pure failed)

    -- A query's body, unless no connection is to be had.
    unfoldable pub when_available : A → Exec (DatabaseManager Srv) A → Exec (DatabaseManager Srv) A
    unfolding available
    when_available failed body = available >>= λ up. if up then body else pure failed
