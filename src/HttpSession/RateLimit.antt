-- ===== src/HttpSession/RateLimit.antt =====
-- RateLimiter of Services/GateServer/http_session.{h,cpp}. `now` is the reading of the steady clock
-- in nanoseconds, which never goes back. The counts stay below `max_requests`, so they do not wrap.
use Prim.Native.Nat.{min}
use qt_web_server_chat.Base.{
  ℕ, ◌+◌, ◌-◌, ◌/◌, ◌≤◌, ◌<◌, ◌≡◌, refl, ap, ◌∙◌, inl, inr, String, Bool, true, false, none, some,
  List, [], ◌∷◌, arith, ◌==◌, if◌then◌else◌, ltb, ltb→lt, eq_iff, eq_refl, Dict, lookup, insert,
  lookup-insert, lookup-insert_self, Option-cases, Bool-cases,
}

-- The count and the start of the window, by client address.
abbrev pub RateLimiter : Type 0
RateLimiter = Dict (ℕ × ℕ)

abbrev pub max_requests : ℕ
max_requests = 10

abbrev pub window_seconds : ℕ
window_seconds = 60

abbrev pub elapsed_seconds : ℕ → ℕ → ℕ
elapsed_seconds now before = (now - before) / 1000000000

unfoldable pub is_allowed : RateLimiter → String → ℕ → ℕ → ℕ → Bool × RateLimiter
is_allowed counts client_ip max window now = elim (lookup client_ip counts) [
  | none ↦ (true, insert client_ip (1, now) counts)
  | some (count, start) ↦
      if ltb window (elapsed_seconds now start)
      then (true, insert client_ip (1, now) counts)
      else if ltb count max
      then (true, insert client_ip (count + 1, start) counts)
      else (false, counts)
]

-- A trace of requests, each a client address and a time; how many of one client's are allowed.
pub allowed_in : RateLimiter → ℕ → ℕ → String → List (String × ℕ) → ℕ
allowed_in counts max window ip [] = 0
allowed_in counts max window ip ((client, now) ∷ rest) =
    let (allowed, counts') = is_allowed counts client max window now in
    let later = allowed_in counts' max window ip rest in
    if client == ip then (if allowed then later + 1 else later) else later

-- Every request of the client in the trace comes within the window that started at `start`.
abbrev pub WithinWindow : ℕ → ℕ → String → List (String × ℕ) → Type 0
WithinWindow start window ip [] = Unit {0}
WithinWindow start window ip ((client, now) ∷ rest) =
    ((client == ip) ≡ true → elapsed_seconds now start ≤ window) × WithinWindow start window ip rest

-- A call for another client leaves this client's entry.
is_allowed-other :
    (counts : RateLimiter) (client ip : String) (max window now : ℕ)
    → (client == ip) ≡ false
    → lookup ip (is_allowed counts client max window now).1 ≡ lookup ip counts
unfolding is_allowed
is_allowed-other counts client ip max window now ne = elim (Option-cases (lookup client counts)) [
  | inl e ↦ rw (e, is_allowed) (rw (lookup-insert, ne) refl)
  | inr ((count, start), e) ↦
      rw (e, is_allowed)
        (ground (
          arith,
          lookup-insert client ip (1, now) counts,
          lookup-insert client ip (count + 1, start) counts,
        ))
]

abbrev pub requests_of : String → List (String × ℕ) → ℕ
requests_of ip [] = 0
requests_of ip ((client, now) ∷ rest) =
    if client == ip then requests_of ip rest + 1 else requests_of ip rest

module _ (counts : RateLimiter) (ip : String) (max window now count start : ℕ) where
  is_allowed-under :
      lookup ip counts ≡ some (count, start)
      → elapsed_seconds now start ≤ window
      → count < max
      → is_allowed counts ip max window now ≡ (true, insert ip (count + 1, start) counts)
  unfolding is_allowed
  is_allowed-under e within under = rw (e, is_allowed) (ground arith)

  is_allowed-over :
      lookup ip counts ≡ some (count, start)
      → elapsed_seconds now start ≤ window
      → max ≤ count
      → is_allowed counts ip max window now ≡ (false, counts)
  unfolding is_allowed
  is_allowed-over e within over = rw (e, is_allowed) (ground arith)

window_exact :
    (max window : ℕ) (ip : String) (trace : List (String × ℕ)) (counts : RateLimiter)
    (count start : ℕ)
    → lookup ip counts ≡ some (count, start)
    → WithinWindow start window ip trace
    → allowed_in counts max window ip trace ≡ min (requests_of ip trace) (max - count)
unfolding allowed_in
window_exact max window ip [] counts count start e within = omega arith
window_exact max window ip ((client, now) ∷ rest) counts count start e within =
    elim (Bool-cases (client == ip)) [
      | inr other ↦ rw other (
          window_exact max window ip rest (is_allowed counts client max window now).1 count start
            (is_allowed-other counts client ip max window now other ∙ e) within.1)
      | inl same ↦
          let here : lookup client counts ≡ some (count, start) =
            ap (λ (c : String). lookup c counts) ((eq_iff client ip).0 same) ∙ e in
          rw same (elim (Bool-cases (ltb count max)) [
            | inl under ↦
                rw
                  (is_allowed-under counts client max window now count start here (within.0 same)
                    (ground arith))
                  (omega (
                    arith,
                    ltb→lt count max under,
                    window_exact max window ip rest (insert client (count + 1, start) counts)
                        (count + 1) start (rw (lookup-insert, same) refl) within.1,
                  ))
            | inr over ↦
                let full : max ≤ count = ground arith in
                rw
                  (is_allowed-over counts client max window now count start here (within.0 same)
                    full)
                  (omega
                    (arith, full, window_exact max window ip rest counts count start e within.1))
          ])
    ]

-- A client without an entry opens a window with its first request. Of that request and the
-- client's further ones within the window, in a trace with any requests of other clients among
-- them, exactly as many are allowed as the limit says, or all if they are fewer.
pub rate_limit_exact :
    (max window now : ℕ) (ip : String) (rest : List (String × ℕ)) (counts : RateLimiter)
    → lookup ip counts ≡ none
    → 0 < max
    → WithinWindow now window ip rest
    → allowed_in counts max window ip ((ip, now) ∷ rest) ≡ min (requests_of ip rest + 1) max
unfolding allowed_in is_allowed
rate_limit_exact max window now ip rest counts e pos within =
    rw (eq_refl ip, e, is_allowed)
      (omega (
        arith,
        window_exact max window ip rest (insert ip (1, now) counts) 1 now
            (lookup-insert_self ip (1, now) counts) within,
      ))

-- A request after the window has passed is allowed, however many were refused before, and it opens
-- a new window at its own time.
pub is_allowed_after_window :
    (counts : RateLimiter) (ip : String) (max window now count start : ℕ)
    → lookup ip counts ≡ some (count, start)
    → window < elapsed_seconds now start
    → ((is_allowed counts ip max window now).0 ≡ true)
      × (lookup ip (is_allowed counts ip max window now).1 ≡ some (1, now))
unfolding is_allowed
is_allowed_after_window counts ip max window now count start e late =
    rw (e, is_allowed)
      (ground (arith), ground (arith, lookup-insert ip ip (1, now) counts, eq_iff ip ip))
