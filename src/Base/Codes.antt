-- ===== src/Base/Codes.antt =====
-- Texts as lists of character codes, and back.
use Prim.Native.Nat.{ℕ, Ordering, compare, ◌<◌}
use native.Mathlib.Omega.{arith}
use Prim.Native.Char.{Char, char, code, nul, IsLt}
use Prim.Native.String.{String, ◌++◌}
use text.Mathlib.TextLemmas.{nil-append, cons-append}
use mathlib.Core.List
use mathlib.Core.Path.{◌≡◌, refl, ap}
use mathlib.Core.List.{List, [], ◌∷◌}
use mathlib.Core.Option.{Option, none, some}

abbrev BothBelow : Ordering → Ordering → Type 0
BothBelow Ordering.lt o = IsLt o
BothBelow Ordering.eq o = ⊥
BothBelow Ordering.gt o = ⊥

abbrev BelowOrBetween : Ordering → Ordering → Ordering → Type 0
BelowOrBetween Ordering.lt o p = Unit
BelowOrBetween Ordering.eq o p = BothBelow o p
BelowOrBetween Ordering.gt o p = BothBelow o p

last_below : (p : Ordering) → Option (IsLt p)
last_below Ordering.lt = some tt
last_below Ordering.eq = none
last_below Ordering.gt = none

between : (o p : Ordering) → Option (BothBelow o p)
unfolding last_below
between Ordering.lt p = last_below p
between Ordering.eq p = none
between Ordering.gt p = none

scalar : (m o p : Ordering) → Option (BelowOrBetween m o p)
unfolding between
scalar Ordering.lt o p = some tt
scalar Ordering.eq o p = between o p
scalar Ordering.gt o p = between o p

-- The character with a code; a number that is no code gives U+0000.
unfoldable pub chr : ℕ → Char
unfolding scalar
chr n = elim (scalar (compare n 55296) (compare 57343 n) (compare n 1114112)) [
  | none ↦ nul
  | some h ↦ char n h
]

abbrev pub codes : String → List ℕ
codes String.[] = []
codes (String.◌∷◌ c s) = code c ∷ codes s

unfoldable pub from_codes : List ℕ → String
unfolding chr
from_codes [] = String.[]
from_codes (n ∷ ns) = String.◌∷◌ (chr n) (from_codes ns)

last_below-some : (p : Ordering) (h : IsLt p) → last_below p ≡ some h
unfolding last_below
last_below-some Ordering.lt h = refl
last_below-some Ordering.eq h = elim h [ ]
last_below-some Ordering.gt h = elim h [ ]

between-some : (o p : Ordering) (h : BothBelow o p) → between o p ≡ some h
unfolding between
between-some Ordering.lt p h = last_below-some p h
between-some Ordering.eq p h = elim h [ ]
between-some Ordering.gt p h = elim h [ ]

scalar-some : (m o p : Ordering) (h : BelowOrBetween m o p) → scalar m o p ≡ some h
unfolding scalar
scalar-some Ordering.lt o p h = refl
scalar-some Ordering.eq o p h = between-some o p h
scalar-some Ordering.gt o p h = between-some o p h

chr-code : (c : Char) → chr (code c) ≡ c
unfolding chr
chr-code (char n h) =
    rw (scalar-some (compare n 55296) (compare 57343 n) (compare n 1114112) h, chr) refl

pub from_codes-codes : (s : String) → from_codes (codes s) ≡ s
unfolding from_codes
from_codes-codes String.[] = refl
from_codes-codes (String.◌∷◌ c s) = cc (chr-code c, from_codes-codes s)

scalar-below : (m o p : Ordering) → IsLt m → (h : BelowOrBetween m o p) × (scalar m o p ≡ some h)
unfolding scalar
scalar-below Ordering.lt o p below = (tt, refl)
scalar-below Ordering.eq o p below = absurd below
scalar-below Ordering.gt o p below = absurd below

compare-IsLt : (n m : ℕ) (o : Ordering) → compare n m ≡ o → n < m → IsLt o
compare-IsLt n m Ordering.lt e h = tt
compare-IsLt n m Ordering.eq e h = absurd (ground arith)
compare-IsLt n m Ordering.gt e h = absurd (ground arith)

code-chr : (n : ℕ) → n < 55296 → code (chr n) ≡ n
unfolding chr
code-chr n below =
    let r =
      scalar-below (compare n 55296) (compare 57343 n) (compare n 1114112)
        (compare-IsLt n 55296 (compare n 55296) refl below) in
    rw (r.1, chr) refl

abbrev pub AreAscii : List ℕ → Type 0
AreAscii [] = Unit {0}
AreAscii (n ∷ ns) = (n < 128) × AreAscii ns

pub codes-from_codes : (ns : List ℕ) → AreAscii ns → codes (from_codes ns) ≡ ns
unfolding from_codes
codes-from_codes [] h = refl
codes-from_codes (n ∷ ns) h = cc (code-chr n (omega (arith, h.0)), codes-from_codes ns h.1)

pub codes-append : (s t : String) → codes (s ++ t) ≡ List.◌++◌ (codes s) (codes t)
codes-append String.[] t = rw nil-append refl
codes-append (String.◌∷◌ c s) t = rw cons-append (ap (λ cs. code c ∷ cs) (codes-append s t))
