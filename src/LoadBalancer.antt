-- ===== src/LoadBalancer.antt =====
-- Services/utils/load_balancer.{h,cpp}. Each public method holds the balancer's mutex from start to
-- end and calls no other locking method, so it is one step on the state. Ports, weights and indices
-- are natural numbers. `draw lo hi` is the number that `uniform_int_distribution(lo, hi)` yields.
pub mod Selection
pub mod RoundRobin
pub mod Weighted
pub mod Health
pub mod Filing
mod Tests
use qt_web_server_chat.Base.{
  ℕ, zero, ◌+◌, ◌-◌, ◌%◌, ◌≤◌, String, Bool, true, ◌&&◌, Option, none, some, List, [], ◌∷◌, ◌++◌,
  leb, eqb, ◌==◌, if◌then◌else◌, length, get_elem?, keep_if, erase_first, update_first, Dict,
  lookup, insert, lookup_or,
}

pub record ServiceInstance : Type 0 where
  pub service_name : String
  pub host : String
  pub port : ℕ
  pub is_healthy : Bool
  pub weight : ℕ

-- The constructor of `ServiceInstance`.
abbrev pub service_instance : String → String → ℕ → ServiceInstance
service_instance name h p = record {
  service_name = name;
  host = h;
  port = p;
  is_healthy = true;
  weight = 1;
}

pub record LoadBalancer : Type 0 where
  pub service_instances : Dict (List ServiceInstance)
  pub current_indices : Dict ℕ

abbrev pub init : LoadBalancer
init = record { service_instances = []; current_indices = [] }

-- The test of the `find_if` calls.
abbrev pub at_address : String → ℕ → ServiceInstance → Bool
at_address host port i = (i.host == host) && eqb i.port port

abbrev pub healthy : ServiceInstance → Bool
healthy i = i.is_healthy

-- The loop that fills `healthyInstances`.
abbrev pub healthy_instances : List ServiceInstance → List ServiceInstance
healthy_instances = keep_if healthy

unfoldable pub add_service_instance : LoadBalancer → String → String → ℕ → ℕ → LoadBalancer
add_service_instance lb name host port weight = record {
  service_instances =
      insert name
        (lookup_or [] name lb.service_instances
          ++ (record (service_instance name host port) { weight = weight }) ∷ [])
        lb.service_instances;
  current_indices = insert name 0 lb.current_indices;
}

-- `serviceInstances_[serviceName]` makes an empty entry for an unknown service.
unfoldable pub remove_service_instance : LoadBalancer → String → String → ℕ → LoadBalancer
remove_service_instance lb name host port = record lb {
  service_instances =
      insert name (erase_first (at_address host port) (lookup_or [] name lb.service_instances))
        lb.service_instances;
}

abbrev pub set_health : Bool → ServiceInstance → ServiceInstance
set_health is_healthy i = record i { is_healthy = is_healthy }

unfoldable pub update_health_status : LoadBalancer → String → String → ℕ → Bool → LoadBalancer
update_health_status lb name host port is_healthy = elim (lookup name lb.service_instances) [
  | none ↦ lb
  | some instances ↦ record lb {
    service_instances =
        insert name (update_first (at_address host port) (set_health is_healthy) instances)
          lb.service_instances;
  }
]

unfoldable pub get_service_instances : LoadBalancer → String → List ServiceInstance
get_service_instances lb name = lookup_or [] name lb.service_instances

-- The body of getNextInstanceRoundRobin after the filter. The index is the one filed under the
-- service name of the first healthy instance.
unfoldable pub round_robin :
    LoadBalancer → List ServiceInstance → Option ServiceInstance × LoadBalancer
round_robin lb [] = (none, lb)
round_robin lb (i ∷ rest) =
    let index = (lookup_or 0 i.service_name lb.current_indices + 1) % length (i ∷ rest) in
    (
      get_elem? (i ∷ rest) index,
      record lb { current_indices = insert i.service_name index lb.current_indices },
    )

abbrev pub total_weight : List ServiceInstance → ℕ
total_weight [] = 0
total_weight (i ∷ is) = i.weight + total_weight is

-- The second loop of getNextInstanceWeightedRoundRobin, with `current` for `currentWeight`.
unfoldable pub first_reaching : ℕ → ℕ → List ServiceInstance → Option ServiceInstance
first_reaching r current [] = none
first_reaching r current (i ∷ is) =
    if leb r (current + i.weight) then some i else first_reaching r (current + i.weight) is

-- `healthyInstances.back()`
unfoldable pub back : List ServiceInstance → Option ServiceInstance
back [] = none
back (i ∷ []) = some i
back (i ∷ j ∷ is) = back (j ∷ is)

unfoldable pub weighted : (ℕ → ℕ → ℕ) → List ServiceInstance → Option ServiceInstance
weighted draw [] = none
weighted draw (i ∷ is) = elim (first_reaching (draw 1 (total_weight (i ∷ is))) 0 (i ∷ is)) [
  | some chosen ↦ some chosen
  | none ↦ back (i ∷ is)
]

unfoldable pub least_connections : (ℕ → ℕ → ℕ) → List ServiceInstance → Option ServiceInstance
least_connections draw [] = none
least_connections draw (i ∷ is) = get_elem? (i ∷ is) (draw 0 (length (i ∷ is) - 1))

-- `nullptr` is `none`. An empty vector is treated as a missing one, as in the source.
unfoldable pub select :
    (ℕ → ℕ → ℕ)
    → LoadBalancer
    → String
    → List ServiceInstance
    → Option ServiceInstance × LoadBalancer
select draw lb algorithm instances =
    if algorithm == "weighted_round_robin"
    then (weighted draw (healthy_instances instances), lb)
    else if algorithm == "least_connections"
    then (least_connections draw (healthy_instances instances), lb)
    else round_robin lb (healthy_instances instances)

unfoldable pub get_next_healthy_instance :
    (ℕ → ℕ → ℕ) → LoadBalancer → String → String → Option ServiceInstance × LoadBalancer
get_next_healthy_instance draw lb name algorithm = elim (lookup name lb.service_instances) [
  | none ↦ (none, lb)
  | some [] ↦ (none, lb)
  | some (i ∷ is) ↦ select draw lb algorithm (i ∷ is)
]
