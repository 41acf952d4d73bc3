-- ===== src/HttpSession/Token.antt =====
-- Tokens of Services/GateServer/http_session.cpp, as lists of character codes. A position that
-- `find` does not find is `none`; adding 1 to `npos` wraps to 0.
pub mod Format
pub mod Numbers
use qt_web_server_chat.Base.{
  ℕ, zero, suc, ◌+◌, ◌-◌, ◌/◌, ◌%◌, ◌≤◌, ◌<◌, ◌≡◌, ◌≢◌, refl, ap, sym, ◌∙◌, inl, inr, Bool, true,
  false, ◌&&◌, ◌||◌, Option, none, some, List, [], ◌∷◌, ◌++◌, arith, if◌then◌else◌, ltb, eqb,
  length, Bool-cases, Option-cases,
}
use mathlib.Core.Option

abbrev pub Text : Type 0
Text = List ℕ

module _ {ℓ} {A : Type ℓ} where
  abbrev pub take : ℕ → List A → List A
  take zero xs = []
  take (suc n) [] = []
  take (suc n) (x ∷ xs) = x ∷ take n xs

  abbrev pub drop : ℕ → List A → List A
  drop zero xs = xs
  drop (suc n) [] = []
  drop (suc n) (x ∷ xs) = drop n xs

abbrev pub text_eq : Text → Text → Bool
text_eq [] [] = true
text_eq [] (y ∷ ys) = false
text_eq (x ∷ xs) [] = false
text_eq (x ∷ xs) (y ∷ ys) = eqb x y && text_eq xs ys

abbrev pub substr : Text → ℕ → ℕ → Text
substr s pos n = take n (drop pos s)

-- s.find(c, pos)
unfoldable pub find : ℕ → Text → ℕ → Option ℕ
find c [] pos = none
find c (x ∷ s) zero = let rest = find c s 0 in if eqb x c then some 0 else Option.map suc rest
find c (x ∷ s) (suc pos) = Option.map suc (find c s pos)

abbrev pub underscore : ℕ
underscore = b'_'

-- "token_"
abbrev pub prefix : Text
prefix = b't' ∷ b'o' ∷ b'k' ∷ b'e' ∷ b'n' ∷ b'_' ∷ []

-- The decimal digits of a number, as `operator<<` writes them; `fuel` digits at most.
unfoldable pub digits : ℕ → ℕ → Text → Text
digits zero n acc = acc
digits (suc fuel) n acc =
    let rest = digits fuel (n / 10) ((b'0' + n % 10) ∷ acc) in
    if ltb n 10 then (b'0' + n) ∷ acc else rest

-- A number has no more digits than its own value plus one.
abbrev pub decimal : ℕ → Text
decimal n = digits (suc n) n []

-- The clock and the random generator's number are arguments.
unfoldable pub generate_token : Text → ℕ → ℕ → Text
generate_token user_id nanoseconds salt =
    prefix ++ (user_id ++ (underscore ∷ (decimal nanoseconds ++ (underscore ∷ decimal salt))))

-- The position after one that `find` returned.
abbrev pub next_pos : Option ℕ → ℕ
next_pos none = 0
next_pos (some p) = suc p

abbrev pub unless_empty : Text → Option Text
unless_empty [] = none
unless_empty (c ∷ user_id) = some (c ∷ user_id)

-- The checks after the three positions have been found: the second and the third are there, and
-- the user id is not empty.
unfoldable pub user_between : Text → Option ℕ → Option ℕ → Option ℕ → Option Text
user_between token first none third = none
user_between token first (some second) none = none
user_between token first (some second) (some third) =
    unless_empty (substr token (next_pos first) (second - next_pos first))

-- `some userId` for true and the output argument, `none` for false.
unfoldable pub verify_token : Text → Option Text
unfolding user_between
verify_token [] = none
verify_token (c ∷ token) =
    if text_eq (substr (c ∷ token) 0 6) prefix
    then (let first = find underscore (c ∷ token) 0 in
        let second = find underscore (c ∷ token) (next_pos first) in
        let third = find underscore (c ∷ token) (next_pos second) in
        user_between (c ∷ token) first second third)
    else none
