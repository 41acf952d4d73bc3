-- ===== src/HttpSession/Token/Numbers.antt =====
-- Which characters stand in the numbers of a token, and of a user's id.
use Prim.Native.String.{char_at}
use qt_web_server_chat.Base.{
  ℕ, zero, suc, ◌+◌, ◌/◌, ◌%◌, ◌<◌, ◌≢◌, String, inl, inr, [], ◌∷◌, ◌++◌, arith, ltb, eqb,
  Bool-cases, pos, to_string, codes, code-digit, AreAscii,
}
use qt_web_server_chat.Base.Int
use qt_web_server_chat.HttpSession.Token.{Text, underscore, prefix, digits, decimal, generate_token}
use qt_web_server_chat.HttpSession.Token.Format.{Avoids}

module _ (c : ℕ) (other : (d : ℕ) → d < 10 → 48 + d ≢ c) where
  -- A character that is no digit does not stand in a number.
  digits-Avoids : (fuel n : ℕ) (acc : Text) → Avoids c acc → Avoids c (digits fuel n acc)
  unfolding digits
  digits-Avoids zero n acc h = h
  digits-Avoids (suc fuel) n acc h = elim (Bool-cases (ltb n 10)) [
    | inl e ↦ rw e (other n (ground arith), h)
    | inr e ↦
        rw e (digits-Avoids fuel (n / 10) ((b'0' + n % 10) ∷ acc) (other (n % 10) (omega arith), h))
  ]

  append-Avoids : (u v : Text) → Avoids c u → Avoids c v → Avoids c (u ++ v)
  append-Avoids [] v h g = g
  append-Avoids (x ∷ u) v h g = (h.0, append-Avoids u v h.1 g)

  id_digits-Avoids :
      (fuel n : ℕ) (out : String) → Avoids c (codes out) → Avoids c (codes (Int.digits fuel n out))
  unfolding Int.digits
  id_digits-Avoids zero n out h = h
  id_digits-Avoids (suc k) n out h = elim (Bool-cases (eqb n 0)) [
    | inl e ↦ rw e h
    | inr e ↦ rw e (
        id_digits-Avoids k (n / 10) (String.◌∷◌ (char_at "0123456789" (n % 10)) out)
          (rw (code-digit (n % 10) (omega arith)) (other (n % 10) (omega arith)), h))
  ]

  pub id-Avoids : (n : ℕ) → Avoids c (codes (to_string (pos n)))
  unfolding to_string
  id-Avoids zero = (other 0 (omega arith), tt)
  id-Avoids (suc n) = id_digits-Avoids 10 (suc n) "" tt

  pub token-Avoids :
      (id nanoseconds salt : ℕ)
      → Avoids c prefix
      → underscore ≢ c
      → Avoids c (generate_token (codes (to_string (pos id))) nanoseconds salt)
  unfolding generate_token
  token-Avoids id nanoseconds salt h g = append-Avoids prefix _ h (
      append-Avoids (codes (to_string (pos id))) _ (id-Avoids id) (
        g,
        append-Avoids (decimal nanoseconds) _ (digits-Avoids (suc nanoseconds) nanoseconds [] tt)
            (g, digits-Avoids (suc salt) salt [] tt),
      ))

-- The first digit is written in front of what is there.
id_digits-ne-nil : (k n : ℕ) (out : String) → codes out ≢ [] → codes (Int.digits k n out) ≢ []
unfolding Int.digits
id_digits-ne-nil zero n out h = h
id_digits-ne-nil (suc k) n out h = elim (Bool-cases (eqb n 0)) [
  | inl e ↦ rw e h
  | inr e ↦ rw e (id_digits-ne-nil k (n / 10) _ (λ p. absurd (cc p)))
]

pub id-ne-nil : (n : ℕ) → codes (to_string (pos n)) ≢ []
unfolding to_string Int.digits
id-ne-nil zero p = absurd (cc)
id-ne-nil (suc n) p = elim (Bool-cases (eqb (suc n) 0)) [
  | inl e ↦ absurd (ground arith)
  | inr e ↦ id_digits-ne-nil 9 (suc n / 10) _ (λ q. absurd (cc q)) (rw e at p)
]

-- Every character of a token is an ASCII one.
append-AreAscii : (u v : Text) → AreAscii u → AreAscii v → AreAscii (u ++ v)
append-AreAscii [] v h g = g
append-AreAscii (x ∷ u) v h g = (h.0, append-AreAscii u v h.1 g)

digits-AreAscii : (fuel n : ℕ) (acc : Text) → AreAscii acc → AreAscii (digits fuel n acc)
unfolding digits
digits-AreAscii zero n acc h = h
digits-AreAscii (suc fuel) n acc h = elim (Bool-cases (ltb n 10)) [
  | inl e ↦ rw e (ground arith, h)
  | inr e ↦ rw e (digits-AreAscii fuel (n / 10) ((b'0' + n % 10) ∷ acc) (omega arith, h))
]

id_digits-AreAscii :
    (fuel n : ℕ) (out : String) → AreAscii (codes out) → AreAscii (codes (Int.digits fuel n out))
unfolding Int.digits
id_digits-AreAscii zero n out h = h
id_digits-AreAscii (suc k) n out h = elim (Bool-cases (eqb n 0)) [
  | inl e ↦ rw e h
  | inr e ↦ rw e (
      id_digits-AreAscii k (n / 10) (String.◌∷◌ (char_at "0123456789" (n % 10)) out)
        (rw (code-digit (n % 10) (omega arith)) (omega arith), h))
]

id-AreAscii : (n : ℕ) → AreAscii (codes (to_string (pos n)))
unfolding to_string
id-AreAscii zero = (omega arith, tt)
id-AreAscii (suc n) = id_digits-AreAscii 10 (suc n) "" tt

prefix-AreAscii : AreAscii prefix
prefix-AreAscii =
    (omega arith, (omega arith, (omega arith, (omega arith, (omega arith, (omega arith, tt))))))

pub token-AreAscii :
    (id nanoseconds salt : ℕ)
    → AreAscii (generate_token (codes (to_string (pos id))) nanoseconds salt)
unfolding generate_token
token-AreAscii id nanoseconds salt = append-AreAscii prefix _ prefix-AreAscii (
    append-AreAscii (codes (to_string (pos id))) _ (id-AreAscii id) (
      omega arith,
      append-AreAscii (decimal nanoseconds) _ (digits-AreAscii (suc nanoseconds) nanoseconds [] tt)
          (omega arith, digits-AreAscii (suc salt) salt [] tt),
    ))
