-- ===== src/DatabaseManager/Connection.antt =====
-- Services/utils/database_manager.cpp: how a query comes by its connection, and what the loop of
-- getMessageHistory makes of a row that does not fit.
use qt_web_server_chat.Base.{
  ℕ, ◌+◌, ◌-◌, ◌&&◌, if◌then◌else◌, ◌≡◌, refl, ap, String, Bool, true, false, some, List, [], ◌∷◌,
  ◌++◌, arith, done, Answers,
}
use qt_web_server_chat.LoadBalancer.{
  ServiceInstance, get_next_healthy_instance, get_service_instances, update_health_status,
  healthy_instances,
}
use qt_web_server_chat.LoadBalancer.Selection.{get_next_healthy_instance-none as unchosen}
use qt_web_server_chat.DatabaseManager.{
  Value, Fetch, row, truncated, no_data, failure, Mysql, DatabaseManager, service_name,
  mark_unhealthy, is_connected_impl, try_connect, connect_to, connect_impl, available,
  update_instance_health,
}
use qt_web_server_chat.DatabaseManager.Messages.{collect_messages, message_columns}

module _ {Srv : Type 0} (mysql : Mysql Srv) where
  -- The test at the start of every query, on a manager whose `connected_` is set: it answers true,
  -- whatever the ping answers, and only the ping is sent; so a connection that the server has
  -- closed is used again, and nothing is connected anew.
  pub available_stale :
      (s : DatabaseManager Srv)
      → s.connected ≡ true
      → available mysql s ≡ done true (record s { srv = (mysql.ping s.srv).1 })
  unfolding available is_connected_impl connect_impl
  available_stale s up = ground arith

  -- mysql_init and mysql_real_connect, one after the other, for an instance: do they succeed?
  abbrev pub reached : ServiceInstance → Srv → Bool
  reached i v = (mysql.init v).0 && (mysql.real_connect i.host i.port (mysql.init v).1).0

  -- What connect_impl has done with the instance that the balancer chose: connected to it, or
  -- reported it as unhealthy, with no connection left.
  pub Settled : DatabaseManager Srv → ServiceInstance → Bool → DatabaseManager Srv → Type 0
  Settled s i true t =
      (t.connected ≡ true)
      × (t.connection ≡ true)
      × (t.current_host ≡ i.host)
      × (t.current_port ≡ i.port)
  Settled s i false t =
      (t.connected ≡ false)
      × (t.connection ≡ false)
      × (t.load_balancer
          ≡ update_health_status
              (get_next_healthy_instance (λ lo hi. lo) s.load_balancer service_name "round_robin").1
              service_name i.host i.port false)

-- The number of handles that mysql_init has made and mysql_close has not freed.
pub record Handles {Srv : Type 0} (mysql : Mysql Srv) (handles : Srv → ℕ) : Type 0 where
  pub init :
      (v : Srv) → handles (mysql.init v).1 ≡ (if (mysql.init v).0 then handles v + 1 else handles v)
  pub real_connect :
      (host : String) (port : ℕ) (v : Srv) → handles (mysql.real_connect host port v).1 ≡ handles v
  pub close : (v : Srv) → handles (mysql.close v) ≡ handles v - 1

module _ {Srv : Type 0} (mysql : Mysql Srv) where
  -- connect_impl on a manager whose `connected_` is not set, when the balancer has an instance for
  -- it: it answers true if and only if mysql_init and mysql_real_connect for that instance succeed;
  -- it is then connected, with that instance's address as the current one, and one handle more is
  -- open. Else no connection and no handle is left, and that instance is marked as unhealthy.
  pub connect_impl_failover :
      (handles : Srv → ℕ) (laws : Handles mysql handles) (s : DatabaseManager Srv)
      (i : ServiceInstance)
      → s.connected ≡ false
      → (get_next_healthy_instance (λ lo hi. lo) s.load_balancer service_name "round_robin").0
        ≡ some i
      → Answers
          (λ a t.
            (a ≡ reached mysql i s.srv)
            × Settled mysql s i a t
            × (handles t.srv ≡ (if a then handles s.srv + 1 else handles s.srv)))
          (connect_impl mysql s)
  unfolding connect_impl Settled connect_to try_connect mark_unhealthy update_instance_health
  connect_impl_failover handles laws s i down chosen =
      let made = mysql.init s.srv in
      let joined = mysql.real_connect i.host i.port made.1 in
      ground (arith, laws.init s.srv, laws.real_connect i.host i.port made.1, laws.close joined.1)

  -- The test at the start of every query, on a manager whose `connected_` is not set and whose
  -- balancer has no healthy instance for it: it answers false and changes nothing, so that every
  -- later query fails as well.
  pub available_exhausted :
      (s : DatabaseManager Srv)
      → s.connected ≡ false
      → healthy_instances (get_service_instances s.load_balancer service_name) ≡ []
      → available mysql s ≡ done false s
  unfolding available is_connected_impl connect_impl connect_to
  available_exhausted s down sick =
      ground (arith, unchosen (λ lo hi. lo) s.load_balancer service_name "round_robin" sick)

-- The loop of getMessageHistory ends at the first row that does not fit its buffers: what is
-- fetched after such a row, however many messages it has, does not change the history.
pub collect_messages_cut :
    (before : List Fetch) (vs : List Value) (after : List Fetch)
    → collect_messages (before ++ truncated vs ∷ after) ≡ collect_messages before
unfolding collect_messages
collect_messages_cut [] vs after = refl
collect_messages_cut (row us ∷ before) vs after =
    ap (λ rest. message_columns us ++ rest) (collect_messages_cut before vs after)
collect_messages_cut (truncated us ∷ before) vs after = refl
collect_messages_cut (no_data ∷ before) vs after = refl
collect_messages_cut (failure ∷ before) vs after = refl
