-- ===== src/LoadBalancer/Selection.antt =====
-- Which instances getNextHealthyInstance (Services/utils/load_balancer.cpp) can return, and when.
use qt_web_server_chat.Base.{
  ℕ, ◌+◌, ◌∙◌, ap, ◌≤◌, ◌≡◌, sym, refl, inl, inr, String, true, none, some, List, [], ◌∷◌, arith,
  ◌==◌, leb, length, get_elem?-mem, get_elem?-total, Memᴰ, mem-keep_if, keep_if-ne-nil, lookup,
  lookup_or-some, lookup_or-none, Option-cases, Bool-cases,
}
use mathlib.Core.List.Memᴰ
use native.Mathlib.Nat.{mod-lt}
use qt_web_server_chat.LoadBalancer.{
  ServiceInstance, LoadBalancer, healthy, healthy_instances, round_robin, total_weight,
  first_reaching, back, weighted, least_connections, select, get_next_healthy_instance,
  get_service_instances,
}

first_reaching-mem :
    (r c : ℕ) (is : List ServiceInstance) {i : ServiceInstance}
    → first_reaching r c is ≡ some i
    → Memᴰ i is
unfolding first_reaching
first_reaching-mem r c [] h = absurd (cc)
first_reaching-mem r c (x ∷ is) h = elim (Bool-cases (leb r (c + x.weight))) [
  | inl hit ↦ Memᴰ.head (ground arith)
  | inr miss ↦ Memᴰ.tail (first_reaching-mem r (c + x.weight) is (rw miss at h))
]

back-mem : (is : List ServiceInstance) {i : ServiceInstance} → back is ≡ some i → Memᴰ i is
unfolding back
back-mem [] h = absurd (cc)
back-mem (x ∷ []) h = Memᴰ.head (cc)
back-mem (x ∷ y ∷ is) h = Memᴰ.tail (back-mem (y ∷ is) h)

back-total :
    (x : ServiceInstance) (is : List ServiceInstance)
    → (i : ServiceInstance) × (back (x ∷ is) ≡ some i)
unfolding back
back-total x [] = (x, refl)
back-total x (y ∷ is) = back-total y is

module _ (draw : ℕ → ℕ → ℕ) where
  weighted-mem :
      (is : List ServiceInstance) {i : ServiceInstance} → weighted draw is ≡ some i → Memᴰ i is
  unfolding weighted
  weighted-mem [] h = absurd (cc)
  weighted-mem (x ∷ is) h =
      elim (Option-cases (first_reaching (draw 1 (total_weight (x ∷ is))) 0 (x ∷ is))) [
        | inl e ↦ back-mem (x ∷ is) (rw (e, weighted) at h)
        | inr (j, e) ↦ first_reaching-mem _ 0 (x ∷ is) (e ∙ rw (e, weighted) at h)
      ]

  weighted-total :
      (x : ServiceInstance) (is : List ServiceInstance)
      → (i : ServiceInstance) × (weighted draw (x ∷ is) ≡ some i)
  unfolding weighted
  weighted-total x is =
      elim (Option-cases (first_reaching (draw 1 (total_weight (x ∷ is))) 0 (x ∷ is))) [
        | inl e ↦ let (i, h) = back-total x is in (i, rw (e, weighted) h)
        | inr (j, e) ↦ (j, rw (e, weighted))
      ]

-- With the generator's numbers in the range that was asked for.
abbrev pub InRange : (ℕ → ℕ → ℕ) → Type 0
InRange draw = (lo hi : ℕ) → lo ≤ hi → (lo ≤ draw lo hi) × (draw lo hi ≤ hi)

module _ (draw : ℕ → ℕ → ℕ) where
  least_connections-mem :
      (is : List ServiceInstance) {i : ServiceInstance}
      → least_connections draw is ≡ some i
      → Memᴰ i is
  unfolding least_connections
  least_connections-mem [] h = absurd (cc)
  least_connections-mem (x ∷ is) h = get_elem?-mem (x ∷ is) _ h

  least_connections-total :
      InRange draw
      → (x : ServiceInstance) (is : List ServiceInstance)
      → (i : ServiceInstance) × (least_connections draw (x ∷ is) ≡ some i)
  unfolding least_connections
  least_connections-total r x is =
      get_elem?-total (x ∷ is) _ (omega (arith, r 0 (length is) (omega arith)))

module _ (lb : LoadBalancer) where
  round_robin-mem :
      (is : List ServiceInstance) {i : ServiceInstance} → (round_robin lb is).0 ≡ some i → Memᴰ i is
  unfolding round_robin
  round_robin-mem [] h = absurd (cc)
  round_robin-mem (x ∷ is) h = get_elem?-mem (x ∷ is) _ h

  round_robin-total :
      (x : ServiceInstance) (is : List ServiceInstance)
      → (i : ServiceInstance) × ((round_robin lb (x ∷ is)).0 ≡ some i)
  unfolding round_robin
  round_robin-total x is = get_elem?-total (x ∷ is) _ (mod-lt _ (omega arith))

module _ (draw : ℕ → ℕ → ℕ) (lb : LoadBalancer) (algorithm : String) where
  select-mem :
      (is : List ServiceInstance) {i : ServiceInstance}
      → (select draw lb algorithm is).0 ≡ some i
      → Memᴰ i (healthy_instances is)
  unfolding select
  select-mem is h = elim (Bool-cases (algorithm == "weighted_round_robin")) [
    | inl w ↦ weighted-mem draw (healthy_instances is) (rw w at h)
    | inr nw ↦ elim (Bool-cases (algorithm == "least_connections")) [
      | inl l ↦ least_connections-mem draw (healthy_instances is) (rw (nw, l) at h)
      | inr nl ↦ round_robin-mem lb (healthy_instances is) (rw (nw, nl) at h)
    ]
  ]

  select-total :
      InRange draw
      → (is : List ServiceInstance) → (x : ServiceInstance) (rest : List ServiceInstance)
      → healthy_instances is ≡ x ∷ rest
      → (i : ServiceInstance) × ((select draw lb algorithm is).0 ≡ some i)
  unfolding select
  select-total r is x rest e = rw e (elim (Bool-cases (algorithm == "weighted_round_robin")) [
    | inl w ↦ rw w (weighted-total draw x rest)
    | inr nw ↦ rw nw (elim (Bool-cases (algorithm == "least_connections")) [
      | inl l ↦ rw l (least_connections-total draw r x rest)
      | inr nl ↦ rw nl (round_robin-total lb x rest)
    ])
  ])

-- An instance that getNextHealthyInstance returns is one of those registered for the service, and
-- it is marked healthy, whichever algorithm is asked for and whatever numbers the generator draws.
pub get_next_healthy_instance-healthy :
    (draw : ℕ → ℕ → ℕ) (lb : LoadBalancer) (name algorithm : String) (i : ServiceInstance)
    → (get_next_healthy_instance draw lb name algorithm).0 ≡ some i
    → Memᴰ i (get_service_instances lb name) × (i.is_healthy ≡ true)
unfolding get_next_healthy_instance get_service_instances
get_next_healthy_instance-healthy draw lb name algorithm i h =
    elim (Option-cases (lookup name lb.service_instances)) [
      | inl e ↦ absurd (cc (rw (e, get_next_healthy_instance) at h))
      | inr ([], e) ↦ absurd (cc (rw (e, get_next_healthy_instance) at h))
      | inr (x ∷ is, e) ↦ rw (lookup_or-some _ _ _ e) (
          mem-keep_if healthy (x ∷ is)
            (select-mem draw lb algorithm (x ∷ is) (rw (e, get_next_healthy_instance) at h)))
    ]

-- If one of the instances registered for the service is healthy, then getNextHealthyInstance
-- returns an instance, whichever algorithm is asked for, provided that the generator's numbers lie
-- in the range that was asked for.
pub get_next_healthy_instance-available :
    (draw : ℕ → ℕ → ℕ)
    → InRange draw
    → (lb : LoadBalancer) (name algorithm : String) (i : ServiceInstance)
    → Memᴰ i (get_service_instances lb name)
    → i.is_healthy ≡ true
    → (j : ServiceInstance) × ((get_next_healthy_instance draw lb name algorithm).0 ≡ some j)
unfolding get_next_healthy_instance get_service_instances
get_next_healthy_instance-available draw r lb name algorithm i m up =
    elim (Option-cases (lookup name lb.service_instances)) [
      | inl e ↦ absurd (Memᴰ.not-nil (rw (lookup_or-none [] name _ e) at m))
      | inr ([], e) ↦ absurd (Memᴰ.not-nil (rw (lookup_or-some [] name _ e) at m))
      | inr (x ∷ is, e) ↦
          let (y, rest, q) =
            keep_if-ne-nil healthy (x ∷ is) (rw (lookup_or-some [] name _ e) at m) up in
          rw (e, get_next_healthy_instance) (select-total draw lb algorithm r (x ∷ is) y rest q)
    ]

-- Without a healthy instance no algorithm chooses one, and the indices stay as they are.
pub get_next_healthy_instance-none :
    (draw : ℕ → ℕ → ℕ) (lb : LoadBalancer) (name algorithm : String)
    → healthy_instances (get_service_instances lb name) ≡ []
    → get_next_healthy_instance draw lb name algorithm ≡ (none, lb)
unfolding get_next_healthy_instance select weighted least_connections round_robin
    get_service_instances
get_next_healthy_instance-none draw lb name algorithm sick =
    elim (Option-cases (lookup name lb.service_instances)) [
      | inl e ↦ ground arith
      | inr ([], e) ↦ ground arith
      | inr (x ∷ is, e) ↦
          let none_healthy =
            (sym (ap healthy_instances (lookup_or-some [] name lb.service_instances e)) ∙ sick) in
          ground (arith, none_healthy)
    ]
