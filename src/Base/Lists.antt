-- ===== src/Base/Lists.antt =====
-- Lists measured and indexed by native numbers, and loops over a vector with a Boolean test.
use Prim.Native.Nat.{ℕ, zero, suc, ◌+◌, ◌≤◌, ◌<◌}
use mathlib.Core.Path.{◌≡◌, refl, ap, ◌∙◌}
use mathlib.Core.Logic.{◌⊎◌, inl, inr}
use mathlib.Core.Bool.{Bool, true, false}
use mathlib.Core.List.{List, [], ◌∷◌, ◌++◌}
use mathlib.Core.Option.{Option, none, some}
use native.Mathlib.Omega.{arith}
use qt_web_server_chat.Base.Tests.{if◌then◌else◌}
pub use mathlib.Core.List.{Memᴰ}
use mathlib.Core.List.Memᴰ

module _ {ℓ} {A : Type ℓ} where
  abbrev pub length : List A → ℕ
  length [] = 0
  length (x ∷ xs) = suc (length xs)

  abbrev pub get_elem? : List A → ℕ → Option A
  get_elem? [] i = none
  get_elem? (x ∷ xs) zero = some x
  get_elem? (x ∷ xs) (suc i) = get_elem? xs i

  pub length-append : (xs ys : List A) → length (xs ++ ys) ≡ length xs + length ys
  length-append [] ys = omega arith
  length-append (x ∷ xs) ys = omega (arith, length-append xs ys)

  -- The elements that pass a test, in order.
  abbrev pub keep_if : (A → Bool) → List A → List A
  keep_if p [] = []
  keep_if p (x ∷ xs) = if p x then x ∷ keep_if p xs else keep_if p xs

  -- `find_if` followed by `erase`: drops the first element that passes.
  abbrev pub erase_first : (A → Bool) → List A → List A
  erase_first p [] = []
  erase_first p (x ∷ xs) = if p x then xs else x ∷ erase_first p xs

  -- `find_if` followed by a write: changes the first element that passes.
  abbrev pub update_first : (A → Bool) → (A → A) → List A → List A
  update_first p f [] = []
  update_first p f (x ∷ xs) = if p x then f x ∷ xs else x ∷ update_first p f xs

  abbrev pub any : (A → Bool) → List A → Bool
  any p [] = false
  any p (x ∷ xs) = if p x then true else any p xs

  pub get_elem?-mem : (xs : List A) (i : ℕ) {a : A} → get_elem? xs i ≡ some a → Memᴰ a xs
  get_elem?-mem [] i h = absurd (cc)
  get_elem?-mem (x ∷ xs) zero h = Memᴰ.head (cc)
  get_elem?-mem (x ∷ xs) (suc i) h = Memᴰ.tail (get_elem?-mem xs i h)

  pub get_elem?-total : (xs : List A) (i : ℕ) → i < length xs → (a : A) × (get_elem? xs i ≡ some a)
  get_elem?-total [] i h = absurd (omega arith)
  get_elem?-total (x ∷ xs) zero h = (x, refl)
  get_elem?-total (x ∷ xs) (suc i) h = get_elem?-total xs i (omega arith)

  pub length-keep_if-le : (p : A → Bool) (xs : List A) → length (keep_if p xs) ≤ length xs
  length-keep_if-le p [] = omega arith
  length-keep_if-le p (x ∷ xs) = ground (arith, length-keep_if-le p xs)

module _ {ℓ} {A : Type ℓ} (p : A → Bool) where
  mem-keep_cons :
      (b : Bool) (x : A) (xs ys : List A) {a : A}
      → p x ≡ b
      → (Memᴰ a ys → Memᴰ a xs × (p a ≡ true))
      → Memᴰ a (if b then x ∷ ys else ys)
      → Memᴰ a (x ∷ xs) × (p a ≡ true)
  mem-keep_cons true x xs ys e ih m = elim (Memᴰ.cases_cons m) [
    | inl q ↦ (Memᴰ.head q, ap p q ∙ e)
    | inr t ↦ let r = ih t in (Memᴰ.tail r.0, r.1)
  ]
  mem-keep_cons false x xs ys e ih m = let r = ih m in (Memᴰ.tail r.0, r.1)

  -- What is kept was there, and passes the test.
  pub mem-keep_if : (xs : List A) {a : A} → Memᴰ a (keep_if p xs) → Memᴰ a xs × (p a ≡ true)
  mem-keep_if [] m = absurd (Memᴰ.not-nil m)
  mem-keep_if (x ∷ xs) m = mem-keep_cons (p x) x xs (keep_if p xs) refl (mem-keep_if xs) m

  keep_cons-ne :
      (b : Bool) (x : A) (ys : List A)
      → ((z : A) × (zs : List A) × (ys ≡ z ∷ zs))
      → (z : A) × (zs : List A) × ((if b then x ∷ ys else ys) ≡ z ∷ zs)
  keep_cons-ne true x ys h = (x, ys, refl)
  keep_cons-ne false x ys h = h

  keep_cons-head :
      (b : Bool) (x : A) (ys : List A)
      → b ≡ true
      → (z : A) × (zs : List A) × ((if b then x ∷ ys else ys) ≡ z ∷ zs)
  keep_cons-head true x ys e = (x, ys, refl)
  keep_cons-head false x ys e = absurd (cc)

  -- One element that passes the test leaves the result with a first element.
  pub keep_if-ne-nil :
      (xs : List A) {a : A}
      → Memᴰ a xs
      → p a ≡ true
      → (z : A) × (zs : List A) × (keep_if p xs ≡ z ∷ zs)
  keep_if-ne-nil [] m h = absurd (Memᴰ.not-nil m)
  keep_if-ne-nil (x ∷ xs) m h = elim (Memᴰ.cases_cons m) [
    | inl e ↦ keep_cons-head (p x) x (keep_if p xs) (cc (ap p e))
    | inr t ↦ keep_cons-ne (p x) x (keep_if p xs) (keep_if-ne-nil xs t h)
  ]

module _ {ℓ} {A : Type ℓ} (p : A → Bool) where
  mem-erase_cons :
      (b : Bool) (x : A) (xs ys : List A) {a : A}
      → (Memᴰ a ys → Memᴰ a xs)
      → Memᴰ a (if b then xs else x ∷ ys)
      → Memᴰ a (x ∷ xs)
  mem-erase_cons true x xs ys ih m = Memᴰ.tail m
  mem-erase_cons false x xs ys ih m = elim (Memᴰ.cases_cons m) [
    | inl q ↦ Memᴰ.head q
    | inr t ↦ Memᴰ.tail (ih t)
  ]

  pub mem-erase_first : (xs : List A) {a : A} → Memᴰ a (erase_first p xs) → Memᴰ a xs
  mem-erase_first [] m = absurd (Memᴰ.not-nil m)
  mem-erase_first (x ∷ xs) m = mem-erase_cons (p x) x xs (erase_first p xs) (mem-erase_first xs) m

  module _ (f : A → A) where
    mem-update_cons :
        (b : Bool) (x : A) (xs ys : List A) {a : A}
        → (Memᴰ a ys → (c : A) × Memᴰ c xs × ((a ≡ c) ⊎ (a ≡ f c)))
        → Memᴰ a (if b then f x ∷ xs else x ∷ ys)
        → (c : A) × Memᴰ c (x ∷ xs) × ((a ≡ c) ⊎ (a ≡ f c))
    mem-update_cons true x xs ys {a} ih m = elim (Memᴰ.cases_cons m) [
      | inl q ↦ (x, Memᴰ.head refl, inr q)
      | inr t ↦ (a, Memᴰ.tail t, inl refl)
    ]
    mem-update_cons false x xs ys ih m = elim (Memᴰ.cases_cons m) [
      | inl q ↦ (x, Memᴰ.head refl, inl q)
      | inr t ↦ let (c, n, e) = ih t in (c, Memᴰ.tail n, e)
    ]

    -- What stands in the result stood there before, itself or before the change.
    pub mem-update_first :
        (xs : List A) {a : A}
        → Memᴰ a (update_first p f xs)
        → (c : A) × Memᴰ c xs × ((a ≡ c) ⊎ (a ≡ f c))
    mem-update_first [] m = absurd (Memᴰ.not-nil m)
    mem-update_first (x ∷ xs) m =
        mem-update_cons (p x) x xs (update_first p f xs) (mem-update_first xs) m
