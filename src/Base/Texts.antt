-- ===== src/Base/Texts.antt =====
-- The texts that `std::to_string` writes, read by `std::stoi`.
use Prim.Native.Nat.{ℕ, zero, suc, ◌+◌, ◌*◌, ◌/◌, ◌%◌, ◌^◌, ◌≤◌, ◌<◌}
use Prim.Native.Char.{Char, code}
use Prim.Native.String.{String, char_at, ◌++◌}
use mathlib.Core.Path.{◌≡◌, refl, ap, ◌∙◌}
use mathlib.Core.Bool.{false}
use mathlib.Core.Logic.{inl, inr}
use mathlib.Core.Option.{Option, none, some}
use native.Mathlib.Omega.{arith}
use text.Mathlib.TextLemmas.{nil-append, cons-append}
use qt_web_server_chat.Base.Tests.{eqb, Bool-cases}
use qt_web_server_chat.Base.Int.{in_range, ℤ, pos, negsuc, digits, to_string, scan, stoi}

abbrev pub digit : ℕ → Char
digit d = char_at "0123456789" d

pub code-digit : (d : ℕ) → d < 10 → code (digit d) ≡ 48 + d
code-digit zero h = refl
code-digit (suc zero) h = refl
code-digit (suc (suc zero)) h = refl
code-digit (suc (suc (suc zero))) h = refl
code-digit (suc (suc (suc (suc zero)))) h = refl
code-digit (suc (suc (suc (suc (suc zero))))) h = refl
code-digit (suc (suc (suc (suc (suc (suc zero)))))) h = refl
code-digit (suc (suc (suc (suc (suc (suc (suc zero))))))) h = refl
code-digit (suc (suc (suc (suc (suc (suc (suc (suc zero)))))))) h = refl
code-digit (suc (suc (suc (suc (suc (suc (suc (suc (suc zero))))))))) h = refl
code-digit (suc (suc (suc (suc (suc (suc (suc (suc (suc (suc d)))))))))) h = absurd (omega arith)

digits-zero : (k : ℕ) (out : String) → digits k 0 out ≡ out
unfolding digits
digits-zero zero out = refl
digits-zero (suc k) out = refl

scan-digit :
    (o : Option ℕ) (d : ℕ) (s : String)
    → d < 10
    → scan o (String.◌∷◌ (digit d) s) ≡ scan (some (elim o [ none ↦ 0 | some a ↦ a ] * 10 + d)) s
unfolding scan
scan-digit o d s h = ground (arith, code-digit d h)

-- 10 ^ k
abbrev pub bound : ℕ → ℕ
bound zero = 1
bound (suc k) = 10 * bound k

scan-digits :
    (k n : ℕ) (out : String) → 0 < n → n < bound k → scan none (digits k n out) ≡ scan (some n) out
unfolding digits
scan-digits zero n out p h = absurd (omega arith)
scan-digits (suc k) n out p h =
    let rest = String.◌∷◌ (digit (n % 10)) out in
    elim (Bool-cases (eqb (n / 10) 0)) [
      | inl low ↦
          let small : n / 10 ≡ 0 = ground arith in
          ground (
            arith,
            ap (λ m. scan none (digits k m rest)) small,
            ap (scan none) (digits-zero k rest),
            scan-digit none (n % 10) out (omega arith),
            ap (λ m. scan (some m) out) (n_of_small n small),
          )
      | inr high ↦ ground (
        arith,
        scan-digits k (n / 10) rest (ground arith) (omega (arith, h)),
        scan-digit (some (n / 10)) (n % 10) out (omega arith),
        ap (λ m. scan (some m) out) (n_split n),
      )
    ]
  where
    n_of_small : (n : ℕ) → n / 10 ≡ 0 → 0 * 10 + n % 10 ≡ n
    n_of_small n e = omega arith

    n_split : (n : ℕ) → n / 10 * 10 + n % 10 ≡ n
    n_split n = omega arith

-- The first character is a digit.
data StartsWithDigit : String → Type 0 where
  starts : (c : Char) (s : String) → 48 ≤ code c → code c ≤ 57 → StartsWithDigit (String.◌∷◌ c s)

digits-StartsWithDigit :
    (k n : ℕ) (out : String) → StartsWithDigit out → StartsWithDigit (digits k n out)
unfolding digits
digits-StartsWithDigit zero n out h = h
digits-StartsWithDigit (suc k) n out h = elim (Bool-cases (eqb n 0)) [
  | inl e ↦ rw e h
  | inr e ↦ rw e (
      digits-StartsWithDigit k (n / 10) (String.◌∷◌ (digit (n % 10)) out) (
        starts (digit (n % 10)) out (omega (arith, code-digit (n % 10) (omega arith)))
          (omega (arith, code-digit (n % 10) (omega arith)))))
]

digits-positive : (k n : ℕ) → 0 < n → StartsWithDigit (digits (suc k) n "")
unfolding digits
digits-positive k n p = elim (Bool-cases (eqb n 0)) [
  | inl e ↦ absurd (ground arith)
  | inr e ↦ rw e (
      digits-StartsWithDigit k (n / 10) (String.◌∷◌ (digit (n % 10)) "") (
        starts (digit (n % 10)) "" (omega (arith, code-digit (n % 10) (omega arith)))
          (omega (arith, code-digit (n % 10) (omega arith)))))
]

stoi-StartsWithDigit : (s : String) → StartsWithDigit s → stoi s ≡ in_range false (scan none s)
unfolding stoi
stoi-StartsWithDigit _ (starts c s low high) = ground arith

-- The 32-bit integers.
abbrev pub IsInt32 : ℤ → Type 0
IsInt32 (pos n) = n < 2 ^ 31
IsInt32 (negsuc n) = n < 2 ^ 31

scan-positive : (n : ℕ) → 0 < n → n ≤ 2 ^ 31 → scan none (digits 10 n "") ≡ some n
unfolding scan
scan-positive n p h = scan-digits 10 n "" p (omega arith)

minus : (s : String) → "-" ++ s ≡ String.◌∷◌ "-" s
minus s = cons-append "-" "" s ∙ ap (String.◌∷◌ "-") (nil-append s)

-- The text that std::to_string writes for a 32-bit integer is read by std::stoi as that integer.
pub stoi-to_string : (n : ℤ) → IsInt32 n → stoi (to_string n) ≡ some n
unfolding stoi to_string scan
stoi-to_string (pos zero) h = refl
stoi-to_string (pos (suc n)) h = ground (
  arith,
  stoi-StartsWithDigit (digits 10 (suc n) "") (digits-positive 9 (suc n) (omega arith)),
  scan-positive (suc n) (omega arith) (omega arith),
)
stoi-to_string (negsuc n) h =
    ground (arith, minus (digits 10 (suc n) ""), scan-positive (suc n) (omega arith) (omega arith))
