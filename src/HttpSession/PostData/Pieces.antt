-- ===== src/HttpSession/PostData/Pieces.antt =====
-- A body of Services/GateServer/http_session.cpp's parse_post_data as pieces between ampersands.
use mathlib.Core.Option
use qt_web_server_chat.Base.{
  ℕ, zero, suc, ◌+◌, ◌-◌, ◌≤◌, ◌≡◌, refl, sym, ap, ◌∙◌, inl, inr, Bool, true, false, Option, none,
  some, List, [], ◌∷◌, arith, if◌then◌else◌, ltb, eqb, length, Bool-cases, Option-cases,
}
use qt_web_server_chat.HttpSession.Token.{Text, take, drop, find}
use qt_web_server_chat.HttpSession.Login.{take-all}
use qt_web_server_chat.HttpSession.PostData.{
  Params, Parsed, parsed, and_then, add_param, parse_from, parse_post_data,
}

abbrev cons_head : ℕ → List Text → List Text
cons_head x [] = (x ∷ []) ∷ []
cons_head x (p ∷ ps) = (x ∷ p) ∷ ps

-- The pieces of a text between the characters c.
unfoldable pub split : ℕ → Text → List Text
split c [] = [] ∷ []
split c (x ∷ s) = let rest = split c s in if eqb x c then [] ∷ rest else cons_head x rest

unfoldable pub add_all : List Text → Params → Parsed
unfolding add_param
add_all [] params = parsed params
add_all (p ∷ ps) params = and_then (add_param p params) (add_all ps)

abbrev SplitsAt : ℕ → Text → Option ℕ → Type 0
SplitsAt c t none = split c t ≡ t ∷ []
SplitsAt c t (some n) = split c t ≡ take n t ∷ split c (drop (suc n) t)

module _ (c : ℕ) where
  split_cons :
      (b : Bool) (x : ℕ) (s : Text) (o : Option ℕ)
      → eqb x c ≡ b
      → SplitsAt c s o
      → SplitsAt c (x ∷ s) (if b then some 0 else Option.map suc o)
  unfolding split
  split_cons true x s o e h = rw e refl
  split_cons false x s none e h = rw (e, h) refl
  split_cons false x s (some n) e h = rw (e, h) refl

  -- The first piece ends where the character is found.
  split-find : (t : Text) → SplitsAt c t (find c t 0)
  unfolding split find
  split-find [] = refl
  split-find (x ∷ s) = split_cons (eqb x c) x s (find c s 0) refl (split-find s)

  map_zero : (o : Option ℕ) → o ≡ Option.map (◌+◌ 0) o
  map_zero none = refl
  map_zero (some n) = ap some (omega arith)

  map_suc :
      (pos : ℕ) (o : Option ℕ)
      → Option.map suc (Option.map (◌+◌ pos) o) ≡ Option.map (◌+◌ (suc pos)) o
  map_suc pos none = refl
  map_suc pos (some n) = ap some (omega arith)

  find-drop : (t : Text) (pos : ℕ) → find c t pos ≡ Option.map (◌+◌ pos) (find c (drop pos t) 0)
  unfolding find
  find-drop t zero = map_zero (find c t 0)
  find-drop [] (suc pos) = refl
  find-drop (x ∷ t) (suc pos) =
      ap (Option.map suc) (find-drop t pos) ∙ map_suc pos (find c (drop pos t) 0)

drop-nil : (n : ℕ) (t : Text) → length t ≤ n → drop n t ≡ []
drop-nil zero [] h = refl
drop-nil zero (x ∷ t) h = absurd (omega (arith, h))
drop-nil (suc n) [] h = refl
drop-nil (suc n) (x ∷ t) h = drop-nil n t (omega (arith, h))

add_suc : (pos n : ℕ) → pos + suc n ≡ suc (pos + n)
add_suc pos n = omega arith

add_sub : (pos n : ℕ) → pos + n - pos ≡ n
add_sub pos n = omega arith

suc_add : (b a : ℕ) → suc (b + a) ≡ suc b + a
suc_add b a = omega arith

drop-drop : (a b : ℕ) (t : Text) → drop a (drop b t) ≡ drop (b + a) t
drop-drop a zero t = ap (λ (n : ℕ). drop n t) (omega arith)
drop-drop a (suc b) [] = drop-nil a [] (omega arith) ∙ sym (drop-nil (suc b + a) [] (omega arith))
drop-drop a (suc b) (x ∷ t) = drop-drop a b t ∙ ap (λ (n : ℕ). drop n (x ∷ t)) (suc_add b a)

take-nil : (k : ℕ) → take {A = ℕ} k [] ≡ []
take-nil zero = refl
take-nil (suc k) = refl

take-rest : (n : ℕ) (t : Text) → take (length t - n) (drop n t) ≡ drop n t
take-rest zero t = ap (λ (n : ℕ). take n t) (omega arith) ∙ take-all t
take-rest (suc n) [] = take-nil (0 - suc n)
take-rest (suc n) (x ∷ t) = ap (λ (k : ℕ). take k (drop n t)) (omega arith) ∙ take-rest n t

and_then-cong :
    (o : Option Params) (f g : Params → Parsed)
    → ((ps : Params) → f ps ≡ g ps)
    → and_then o f ≡ and_then o g
and_then-cong none f g h = refl
and_then-cong (some ps) f g h = h ps

parse_past_end :
    (fuel : ℕ) (body : Text) (pos : ℕ) (params : Params)
    → length body ≤ pos
    → parse_from fuel body pos params ≡ parsed params
unfolding parse_from
parse_past_end zero body pos params h = ground arith
parse_past_end (suc fuel) body pos params h = ground arith

split_past_end :
    (body : Text) (pos : ℕ) (params : Params)
    → length body ≤ pos
    → add_all (split b'&' (drop pos body)) params ≡ parsed params
unfolding add_all split add_param find
split_past_end body pos params h = rw (drop-nil pos body h) refl

past_end :
    (fuel : ℕ) (body : Text) (pos : ℕ) (params : Params)
    → length body ≤ pos
    → parse_from fuel body pos params ≡ add_all (split b'&' (drop pos body)) params
past_end fuel body pos params h =
    parse_past_end fuel body pos params h ∙ sym (split_past_end body pos params h)

-- The round for the last piece; `rest` is the loop behind it.
last_round :
    (body : Text) (pos : ℕ) (params : Params) (rest : Params → Parsed)
    → find b'&' (drop pos body) 0 ≡ none
    → ((ps : Params) → rest ps ≡ parsed ps)
    → and_then (add_param (take (length body - pos) (drop pos body)) params) rest
      ≡ add_all (split b'&' (drop pos body)) params
unfolding add_all
last_round body pos params rest f h =
    let piece : SplitsAt b'&' (drop pos body) none = rw f at (split-find b'&' (drop pos body)) in
    and_then-cong _ rest (λ ps. parsed ps) h
    ∙ ap (λ (u : Text). and_then (add_param u params) (λ ps. parsed ps)) (take-rest pos body)
    ∙ sym (ap (λ (l : List Text). add_all l params) piece)

-- The round for a piece that an ampersand ends.
inner_round :
    (body : Text) (pos n : ℕ) (params : Params) (rest : Params → Parsed)
    → find b'&' (drop pos body) 0 ≡ some n
    → ((ps : Params) → rest ps ≡ add_all (split b'&' (drop (suc (pos + n)) body)) ps)
    → and_then (add_param (take (pos + n - pos) (drop pos body)) params) rest
      ≡ add_all (split b'&' (drop pos body)) params
unfolding add_all
inner_round body pos n params rest f h =
    let piece : SplitsAt b'&' (drop pos body) (some n) =
      rw f at (split-find b'&' (drop pos body)) in
    let left : drop (suc (pos + n)) body ≡ drop (suc n) (drop pos body) =
      sym (drop-drop (suc n) pos body ∙ ap (λ (k : ℕ). drop k body) (add_suc pos n)) in
    and_then-cong _ rest (add_all (split b'&' (drop (suc n) (drop pos body))))
      (λ ps. h ps ∙ ap (λ (u : Text). add_all (split b'&' u) ps) left)
    ∙ ap
        (λ (k : ℕ).
          and_then (add_param (take k (drop pos body)) params)
            (add_all (split b'&' (drop (suc n) (drop pos body)))))
        (add_sub pos n)
    ∙ sym (ap (λ (l : List Text). add_all l params) piece)

parse_from-split :
    (fuel : ℕ) (body : Text) (pos : ℕ) (params : Params)
    → length body ≤ pos + fuel
    → parse_from fuel body pos params ≡ add_all (split b'&' (drop pos body)) params
unfolding parse_from add_all
parse_from-split zero body pos params h = past_end zero body pos params (omega (arith, h))
parse_from-split (suc fuel) body pos params h = elim (Bool-cases (ltb pos (length body))) [
  | inr e ↦ past_end (suc fuel) body pos params (ground arith)
  | inl e ↦ elim (Option-cases (find b'&' (drop pos body) 0)) [
    | inl f ↦
        simp (e, find-drop b'&' body pos, f, parse_from)
          (last_round body pos params (parse_from fuel body (suc (length body))) f
            (λ ps. parse_past_end fuel body (suc (length body)) ps (omega arith)))
    | inr (n, f) ↦
        simp (e, find-drop b'&' body pos, f, parse_from)
          (inner_round body pos n params (parse_from fuel body (suc (pos + n))) f
            (λ ps. parse_from-split fuel body (suc (pos + n)) ps (omega (arith, h))))
  ]
]

-- parse_post_data ends for every body, within as many rounds as the body has characters, and does
-- what adding the parameters between the ampersands one after the other does: it gives the
-- parameters, or throws if the value of one of them cannot be decoded.
pub parse_post_data-split : (body : Text) → parse_post_data body ≡ add_all (split b'&' body) []
unfolding parse_post_data
parse_post_data-split body = parse_from-split (length body) body 0 [] (omega arith)
