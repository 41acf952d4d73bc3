-- ===== src/LoadBalancer/Tests.antt =====
-- The load balancer on concrete instances.
use qt_web_server_chat.Base.{
  ℕ, ◌+◌, ◌≤◌, ◌<◌, ◌≡◌, refl, ◌%◌, String, Bool, true, false, Option, some, List, [], ◌∷◌, ◌++◌,
  arith, Memᴰ, any, erase_first, get_elem?, length, lookup, lookup_or,
}
use qt_web_server_chat.LoadBalancer.{
  ServiceInstance, LoadBalancer, init, service_instance, at_address, add_service_instance,
  remove_service_instance, update_health_status, get_service_instances, get_next_healthy_instance,
}
use qt_web_server_chat.LoadBalancer.Selection.{
  InRange, get_next_healthy_instance-healthy, get_next_healthy_instance-available,
}
use qt_web_server_chat.LoadBalancer.RoundRobin.{after_calls, round_robin_rotation}
use qt_web_server_chat.LoadBalancer.Weighted.{weighted_share}
use qt_web_server_chat.LoadBalancer.Filing.{Call, adds, marks, run, run_rotation}

abbrev draw : ℕ → ℕ → ℕ
draw lo hi = hi

abbrev alpha : ServiceInstance
alpha = record (service_instance "db" "alpha" 3306) { weight = 2 }

abbrev beta : ServiceInstance
beta = record (service_instance "db" "beta" 3306) { weight = 1; is_healthy = false }

abbrev gamma : ServiceInstance
gamma = record (service_instance "db" "gamma" 3307) { weight = 3 }

-- Three instances, the second of them unhealthy.
abbrev three : LoadBalancer
three = record {
  service_instances = ("db", alpha ∷ beta ∷ gamma ∷ []) ∷ [];
  current_indices = ("db", 0) ∷ [];
}

draw-InRange : InRange draw
draw-InRange lo hi h = (h, ground arith)

-- The second healthy instance comes first, since the index is advanced before it is used.
first_choice : (get_next_healthy_instance draw three "db" "round_robin").0 ≡ some gamma
unfolding get_next_healthy_instance lookup qt_web_server_chat.LoadBalancer.select
    qt_web_server_chat.LoadBalancer.round_robin lookup_or
first_choice = refl

get_next_healthy_instance-healthy_example :
    Memᴰ gamma (get_service_instances three "db") × (true ≡ true)
get_next_healthy_instance-healthy_example =
    get_next_healthy_instance-healthy draw three "db" "round_robin" gamma first_choice

get_next_healthy_instance-available_example :
    (j : ServiceInstance) × ((get_next_healthy_instance draw three "db" "weighted_round_robin").0
      ≡ some j)
unfolding get_service_instances lookup_or lookup
get_next_healthy_instance-available_example =
    get_next_healthy_instance-available draw draw-InRange three "db" "weighted_round_robin" alpha
      (Memᴰ.head refl) refl

round_robin_rotation_example :
    (get_next_healthy_instance draw
      (after_calls draw three "db" "round_robin" 1)
      "db"
      "round_robin").0
    ≡ get_elem?
        (alpha ∷ gamma ∷ [])
        ((lookup_or 0 "db" three.current_indices + 1 + 1) % length (alpha ∷ gamma ∷ []))
unfolding lookup
round_robin_rotation_example =
    round_robin_rotation draw three "db" (alpha ∷ beta ∷ gamma ∷ []) alpha (gamma ∷ []) refl refl
      refl 1

weighted_share_example :
    get_next_healthy_instance draw three "db" "weighted_round_robin" ≡ (some gamma, three)
unfolding lookup
weighted_share_example =
    weighted_share draw three "db" (alpha ∷ beta ∷ gamma ∷ []) (alpha ∷ []) gamma [] refl refl
      (omega arith) (omega arith)

next_choice :
    (get_next_healthy_instance draw
      (update_health_status three "db" "gamma" 3307 false)
      "db"
      "round_robin").0
    ≡ some alpha
unfolding get_next_healthy_instance update_health_status lookup qt_web_server_chat.Base.insert
    qt_web_server_chat.LoadBalancer.select qt_web_server_chat.LoadBalancer.round_robin lookup_or
next_choice = refl

abbrev history : List Call
history = adds "db" "alpha" 3306 1 ∷ adds "db" "beta" 3306 1 ∷ marks "db" "alpha" 3306 false ∷ []

run_rotation_example :
    (get_next_healthy_instance draw
      (after_calls draw (run init history) "db" "round_robin" 3)
      "db"
      "round_robin").0
    ≡ get_elem? (service_instance "db" "beta" 3306 ∷ []) (
        (lookup_or 0 "db" (run init history).current_indices + 3 + 1)
        % length (service_instance "db" "beta" 3306 ∷ []))
unfolding run lookup qt_web_server_chat.LoadBalancer.Filing.step update_health_status
    add_service_instance qt_web_server_chat.Base.insert lookup_or
run_rotation_example =
    run_rotation draw history "db"
      (record (service_instance "db" "alpha" 3306) { is_healthy = false }
        ∷ service_instance "db" "beta" 3306
        ∷ [])
      (service_instance "db" "beta" 3306) [] refl refl 3
