-- ===== src/HttpSession/Token/Format.antt =====
-- Which tokens verify_token of Services/GateServer/http_session.cpp accepts.
use mathlib.Core.Option
use mathlib.Core.Path.{ap₂, subst}
use qt_web_server_chat.Base.{
  ℕ, zero, suc, ◌+◌, ◌-◌, ◌≡◌, ◌≢◌, refl, ap, sym, ◌∙◌, inl, inr, true, Option, none, some, [], ◌∷◌,
  ◌++◌, arith, eqb, length, Bool-cases, Option-cases,
}
use qt_web_server_chat.HttpSession.Token.{
  Text, take, drop, text_eq, substr, find, underscore, prefix, decimal, generate_token,
  unless_empty, user_between, verify_token,
}

abbrev pub Avoids : ℕ → Text → Type 0
Avoids c [] = Unit {0}
Avoids c (x ∷ s) = (x ≢ c) × Avoids c s

module _ (c : ℕ) where
  find-first : (u rest : Text) → Avoids c u → find c (u ++ (c ∷ rest)) 0 ≡ some (length u)
  unfolding find
  find-first [] rest h = ground arith
  find-first (x ∷ u) rest h = ground (arith, find-first u rest h.1)

  find-somewhere : (a b : Text) → (p : ℕ) × (find c (a ++ (c ∷ b)) 0 ≡ some p)
  unfolding find
  find-somewhere [] b = (0, ground arith)
  find-somewhere (x ∷ a) b = elim (Bool-cases (eqb x c)) [
    | inl hit ↦ (0, rw hit refl)
    | inr miss ↦ let (p, e) = find-somewhere a b in (suc p, rw (miss, e) refl)
  ]

  find-later :
      (u : Text) (d : ℕ) (s : Text) {p : ℕ}
      → find c s 0 ≡ some p
      → find c (u ++ (d ∷ s)) (suc (length u)) ≡ some (suc (length u) + p)
  unfolding find
  find-later [] d [] h = absurd (cc)
  find-later [] d (y ∷ s) h = ap (Option.map suc) h ∙ ap some (omega arith)
  find-later (x ∷ u) d s h = rw (find-later u d s h) (ap some (omega arith))

  find-was_later :
      (u : Text) (d : ℕ) (s : Text) {q : ℕ}
      → find c (u ++ (d ∷ s)) (suc (length u)) ≡ some q
      → (p : ℕ) × (find c s 0 ≡ some p)
  unfolding find
  find-was_later [] d [] h = absurd (cc)
  find-was_later [] d (y ∷ s) h = elim (Option-cases (find c (y ∷ s) 0)) [
    | inl e ↦ absurd (cc (rw e at h))
    | inr found ↦ found
  ]
  find-was_later (x ∷ u) d s h = elim (Option-cases (find c (u ++ (d ∷ s)) (suc (length u)))) [
    | inl e ↦ absurd (cc (rw e at h))
    | inr (q, e) ↦ find-was_later u d s e
  ]

  -- The text up to a found position, and after it.
  find-splits :
      (s : Text) (p : ℕ)
      → find c s 0 ≡ some p
      → (u rest : Text) × (s ≡ u ++ (c ∷ rest)) × Avoids c u × (length u ≡ p)
  unfolding find
  find-splits [] p h = absurd (cc)
  find-splits (x ∷ s) p h = elim (Bool-cases (eqb x c)) [
    | inl hit ↦
        let same : x ≡ c = ground arith in ([], s, ap (λ (y : ℕ). y ∷ s) same, tt, ground arith)
    | inr miss ↦ elim (Option-cases (find c s 0)) [
      | inl e ↦ absurd (ground arith)
      | inr (q, e) ↦
          let (u, rest, split, avoids, len) = find-splits s q e in
          let other : x ≢ c = ground arith in
          (x ∷ u, rest, ap (◌∷◌ x) split, (other, avoids), ground arith)
    ]
  ]

take-length : (u rest : Text) → take (length u) (u ++ rest) ≡ u
take-length [] rest = refl
take-length (x ∷ u) rest = ap (◌∷◌ x) (take-length u rest)

shift_six : (n : ℕ) → suc (suc (suc (suc (suc (suc n))))) - 6 ≡ n
shift_six n = omega arith

abbrev six : ℕ → ℕ
six n = suc (suc (suc (suc (suc (suc n)))))

-- The positions that verify_token finds, by those in what follows the prefix.
verify_token-reads :
    (s : Text) (p : ℕ)
    → find underscore s 0 ≡ some p
    → verify_token (prefix ++ s)
      ≡ user_between
          (prefix ++ s)
          (some 5)
          (some (six p))
          (Option.map six (find underscore s (suc p)))
unfolding verify_token find
verify_token-reads s p e = rw e (map_six (find underscore s (suc p)))
  where
    map_six :
        (o : Option ℕ)
        → user_between (prefix ++ s) (some 5) (some (six p)) (
            Option.map suc (
              Option.map suc (Option.map suc (Option.map suc (Option.map suc (Option.map suc o))))))
          ≡ user_between (prefix ++ s) (some 5) (some (six p)) (Option.map six o)
    map_six none = refl
    map_six (some q) = refl

user_between-take :
    (s : Text) (p q : ℕ) (c : ℕ) (u : Text)
    → take p s ≡ c ∷ u
    → user_between (prefix ++ s) (some 5) (some (six p)) (some q) ≡ some (c ∷ u)
unfolding user_between
user_between-take s p q c u e =
    ap (λ (n : ℕ). unless_empty (take n s)) (shift_six p) ∙ ap unless_empty e

-- Every text of the form token_<user>_<any>_<any>, with a user that is not empty and has no
-- underscore, is accepted as a token of that user, whoever made it.
pub verify_token_accepts :
    (user a b : Text)
    → user ≢ []
    → Avoids underscore user
    → verify_token (prefix ++ (user ++ (underscore ∷ (a ++ (underscore ∷ b))))) ≡ some user
verify_token_accepts [] a b ne h = absurd (ne refl)
verify_token_accepts (x ∷ u) a b ne h =
    let (q, third) = find-somewhere underscore a b in
    verify_token-reads _ _ (find-first underscore (x ∷ u) (a ++ (underscore ∷ b)) h)
    ∙ rw (find-later underscore (x ∷ u) underscore (a ++ (underscore ∷ b)) third) (
        user_between-take _ (length (x ∷ u)) _ x u
          (take-length (x ∷ u) (underscore ∷ (a ++ (underscore ∷ b)))))

text_eq→eq : (s t : Text) → text_eq s t ≡ true → s ≡ t
text_eq→eq [] [] h = refl
text_eq→eq [] (y ∷ t) h = absurd (cc)
text_eq→eq (x ∷ s) [] h = absurd (cc)
text_eq→eq (x ∷ s) (y ∷ t) h = elim (Bool-cases (eqb x y)) [
  | inl same ↦ ap₂ ◌∷◌ (ground arith) (text_eq→eq s t (rw same at h))
  | inr other ↦ absurd (cc (rw other at h))
]

take-append-drop : (n : ℕ) (s : Text) → take n s ++ drop n s ≡ s
take-append-drop zero s = refl
take-append-drop (suc n) [] = refl
take-append-drop (suc n) (x ∷ s) = ap (◌∷◌ x) (take-append-drop n s)

verify_token-prefix :
    (token user : Text) → verify_token token ≡ some user → token ≡ prefix ++ drop 6 token
unfolding verify_token
verify_token-prefix [] user h = absurd (cc)
verify_token-prefix (c ∷ token) user h =
    elim (Bool-cases (text_eq (substr (c ∷ token) 0 6) prefix)) [
      | inl same ↦
          sym (take-append-drop 6 (c ∷ token))
          ∙ ap (λ (t : Text). t ++ drop 6 (c ∷ token))
              (text_eq→eq (substr (c ∷ token) 0 6) prefix same)
      | inr other ↦ absurd (cc (rw other at h))
    ]

no_second : (s : Text) → find underscore s 0 ≡ none → verify_token (prefix ++ s) ≡ none
unfolding verify_token find user_between
no_second s e = rw e refl

nonempty-result : (t user : Text) → unless_empty t ≡ some user → (t ≡ user) × (user ≢ [])
nonempty-result [] user h = absurd (cc)
nonempty-result (x ∷ t) user h = (ground arith, λ e. ground arith)

third_found :
    (s user : Text) (p : ℕ) (third : Option ℕ)
    → user_between (prefix ++ s) (some 5) (some (six p)) (Option.map six third) ≡ some user
    → (q : ℕ) × (third ≡ some q) × (take p s ≡ user) × (user ≢ [])
unfolding user_between
third_found s user p none h = absurd (cc)
third_found s user p (some q) h =
    let r =
      nonempty-result (take p s) user
        (ap (λ (n : ℕ). unless_empty (take n s)) (sym (shift_six p)) ∙ h) in
    (q, refl, r.0, r.1)

form_after_prefix :
    (s user : Text)
    → verify_token (prefix ++ s) ≡ some user
    → (a b : Text) × (s ≡ user ++ (underscore ∷ (a ++ (underscore ∷ b))))
      × (user ≢ [])
      × Avoids underscore user
form_after_prefix s user h = elim (Option-cases (find underscore s 0)) [
  | inl e ↦ absurd (cc (sym (no_second s e) ∙ h))
  | inr (p, e) ↦
      let (q, third, taken, ne) =
        third_found s user p (find underscore s (suc p)) (sym (verify_token-reads s p e) ∙ h) in
      let (u, rest, split, avoids, len) = find-splits underscore s p e in
      let same : u ≡ user =
        sym (take-length u (underscore ∷ rest)) ∙ ap₂ take len (sym split) ∙ taken in
      let (r, again) =
        find-was_later underscore u underscore rest
          (ap₂ (find underscore) (sym split) (ap suc len) ∙ third) in
      let (a, b, split', avoids', len') = find-splits underscore rest r again in
      (
        a,
        b,
        split ∙ ap₂ (λ (v w : Text). v ++ (underscore ∷ w)) same split',
        ne,
        subst (Avoids underscore) same avoids,
      )
]

-- A text that verify_token accepts as a token of a user has the form token_<user>_<any>_<any>, and
-- the user is not empty and has no underscore.
pub verify_token_form :
    (token user : Text)
    → verify_token token ≡ some user
    → (a b : Text) × (token ≡ prefix ++ (user ++ (underscore ∷ (a ++ (underscore ∷ b)))))
      × (user ≢ [])
      × Avoids underscore user
verify_token_form token user h =
    let start = verify_token-prefix token user h in
    let (a, b, split, ne, avoids) =
      form_after_prefix (drop 6 token) user (ap verify_token (sym start) ∙ h) in
    (a, b, start ∙ ap (◌++◌ prefix) split, ne, avoids)

-- The user id is recovered from a generated token, whatever the clock and the random number were,
-- if it is not empty and has no underscore.
pub verify-generate_token :
    (user : Text) (nanoseconds salt : ℕ)
    → user ≢ []
    → Avoids underscore user
    → verify_token (generate_token user nanoseconds salt) ≡ some user
unfolding generate_token
verify-generate_token user nanoseconds salt =
    verify_token_accepts user (decimal nanoseconds) (decimal salt)
