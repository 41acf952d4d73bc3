-- ===== src/HttpSession/PostData.antt =====
-- parse_post_data of Services/GateServer/http_session.cpp: the loop over the positions of a body. An
-- exception of std::stoi ends it.
pub mod Pieces
use mathlib.Core.Option
use qt_web_server_chat.Base.{
  ℕ, zero, suc, ◌+◌, ◌-◌, ◌*◌, ◌%◌, ◌≤◌, ◌<◌, ◌≡◌, refl, sym, ap, ◌∙◌, inl, inr, Bool, true, false,
  ◌&&◌, ◌||◌, Option, none, some, List, [], ◌∷◌, arith, if◌then◌else◌, ltb, leb, eqb, length,
  Bool-cases, Option-cases, Dict, insert, from_codes,
}
use qt_web_server_chat.HttpSession.Token.{Text, take, drop, substr, find}
use qt_web_server_chat.HttpSession.Lifecycle.{or_length}
use qt_web_server_chat.HttpSession.Login.{take-all}

abbrev pub hex_digit : ℕ → Option ℕ
hex_digit c =
    if leb b'0' c && leb c b'9'
    then some (c - b'0')
    else if leb b'a' c && leb c b'f'
    then some (c - 87)
    else if leb b'A' c && leb c b'F'
    then some (c - 55)
    else none

abbrev is_space : ℕ → Bool
is_space c = eqb c 32 || (leb 9 c && leb c 13)

-- std::stoi(hex, nullptr, 16) of two characters, cast to a byte: a space may stand in front, and so
-- may a sign; a second character that is no digit is left. `none` is an exception.
unfoldable pub stoi_hex : ℕ → ℕ → Option ℕ
stoi_hex a b = elim (hex_digit a) [
  | some x ↦ elim (hex_digit b) [ some y ↦ some (x * 16 + y) | none ↦ some x ]
  | none ↦
      if is_space a || eqb a b'+'
      then hex_digit b
      else if eqb a b'-'
      then Option.map (λ y. (256 - y) % 256) (hex_digit b)
      else none
]

abbrev decoded : ℕ → Text
decoded c = (if eqb c b'+' then 32 else c) ∷ []

-- The loop over a value: %XY is a character, + a space.
unfoldable pub url_decode : Text → Option Text
unfolding stoi_hex
url_decode [] = some []
url_decode (c ∷ []) = some (decoded c)
url_decode (c ∷ a ∷ []) = Option.map (λ r. (if eqb c b'+' then 32 else c) ∷ r) (url_decode (a ∷ []))
url_decode (c ∷ a ∷ b ∷ s) = elim (eqb c b'%') [
  | true ↦ elim (stoi_hex a b) [ none ↦ none | some x ↦ Option.map (λ r. x ∷ r) (url_decode s) ]
  | false ↦ Option.map (λ r. (if eqb c b'+' then 32 else c) ∷ r) (url_decode (a ∷ b ∷ s))
]

abbrev pub Params : Type 0
Params = Dict Text

-- What the loop does with one parameter.
unfoldable pub add_param : Text → Params → Option Params
unfolding url_decode
add_param param params = elim (find b'=' param 0) [
  | none ↦ some params
  | some eq_pos ↦
      Option.map (λ v. insert (from_codes (substr param 0 eq_pos)) v params)
        (url_decode (drop (suc eq_pos) param))
]

-- The end of the loop: with the parameters, by an exception, or, in this model, without fuel.
pub data Parsed : Type 0 where
  parsed : Params → Parsed
  threw exhausted : Parsed

abbrev pub and_then : Option Params → (Params → Parsed) → Parsed
and_then none f = threw
and_then (some ps) f = f ps

unfoldable pub parse_from : ℕ → Text → ℕ → Params → Parsed
unfolding add_param find
parse_from zero body pos params = if ltb pos (length body) then exhausted else parsed params
parse_from (suc fuel) body pos params =
    let next = or_length (find b'&' body pos) body in
    let rest = parse_from fuel body (suc next) in
    if ltb pos (length body)
    then and_then (add_param (substr body pos (next - pos)) params) rest
    else parsed params

-- A round takes one character at least.
unfoldable pub parse_post_data : Text → Parsed
unfolding parse_from
parse_post_data body = parse_from (length body) body 0 []
