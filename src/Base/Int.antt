-- ===== src/Base/Int.antt =====
-- Integers, and `std::to_string` and `std::stoi` on 32-bit ones.
use Prim.Native.Nat.{ℕ, zero, suc, ◌+◌, ◌-◌, ◌*◌, ◌/◌, ◌%◌, ◌^◌}
use Prim.Native.Char.{Char, code}
use Prim.Native.String.{String, ◌++◌, char_at}
use mathlib.Core.Bool.{Bool, true, false, ◌&&◌, ◌||◌}
use mathlib.Core.Option.{Option, none, some}
use qt_web_server_chat.Base.Tests.{leb, ltb, eqb, if◌then◌else◌}

pub data ℤ : Type 0 where
  pos negsuc : ℕ → ℤ

-- The last digits of a number, as many as the first argument at most: 32 bits have ten, and so have
-- the seconds of the clock until the year 2286.
unfoldable pub digits : ℕ → ℕ → String → String
digits zero n out = out
digits (suc k) n out =
    let rest = digits k (n / 10) (String.◌∷◌ (char_at "0123456789" (n % 10)) out) in
    if eqb n 0 then out else rest

unfoldable pub to_string : ℤ → String
unfolding digits
to_string (pos zero) = "0"
to_string (pos (suc n)) = digits 10 (suc n) ""
to_string (negsuc n) = "-" ++ digits 10 (suc n) ""

abbrev is_digit : Char → Bool
is_digit c = leb 48 (code c) && leb (code c) 57

-- The value of the digits at the start of a text, behind those read before.
unfoldable pub scan : Option ℕ → String → Option ℕ
scan found String.[] = found
scan found (String.◌∷◌ c s) =
    let next = scan (some (elim found [ none ↦ 0 | some n ↦ n ] * 10 + (code c - 48))) s in
    if is_digit c then next else found

abbrev pub in_range : Bool → Option ℕ → Option ℤ
in_range minus none = none
in_range true (some zero) = some (pos zero)
in_range true (some (suc n)) = if ltb n (2 ^ 31) then some (negsuc n) else none
in_range false (some n) = if ltb n (2 ^ 31) then some (pos n) else none

-- An exception is `none`: no digit, or out of range. What follows the digits is left.
unfoldable pub stoi : String → Option ℤ
unfolding scan
stoi String.[] = none
stoi (String.◌∷◌ c s) =
    let skipped = stoi s in
    if eqb (code c) 32 || (leb 9 (code c) && leb (code c) 13)
    then skipped
    else if eqb (code c) 45
    then in_range true (scan none s)
    else if eqb (code c) 43
    then in_range false (scan none s)
    else in_range false (scan none (String.◌∷◌ c s))
