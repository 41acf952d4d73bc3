-- ===== src/CryptoUtils/Hex.antt =====
-- The hexadecimal texts of Services/utils/crypto_utils.cpp, read back.
use Prim.Native.Char.{code}
use Prim.Native.String.{char_at}
use qt_web_server_chat.Base.{
  ℕ, zero, suc, ◌+◌, ◌-◌, ◌*◌, ◌/◌, ◌%◌, ◌<◌, ◌≡◌, refl, ap, String, Option, none, some, List, [],
  ◌∷◌, arith, if◌then◌else◌, ltb, length,
}
use qt_web_server_chat.CryptoUtils.{hex, fallback, generate_salt}

abbrev pub AreBytes : List ℕ → Type 0
AreBytes [] = Unit {0}
AreBytes (b ∷ bs) = (b < 256) × AreBytes bs

abbrev nibble : ℕ → ℕ
nibble c = if ltb c 58 then c - 48 else c - 87

-- The bytes whose digits a text shows.
unfoldable pub unhex : String → List ℕ
unhex String.[] = []
unhex (String.◌∷◌ c String.[]) = []
unhex (String.◌∷◌ c (String.◌∷◌ d s)) = (nibble (code c) * 16 + nibble (code d)) ∷ unhex s

nibble-hex : (n : ℕ) → n < 16 → nibble (code (char_at "0123456789abcdef" n)) ≡ n
nibble-hex zero h = refl
nibble-hex (suc zero) h = refl
nibble-hex (suc (suc zero)) h = refl
nibble-hex (suc (suc (suc zero))) h = refl
nibble-hex (suc (suc (suc (suc zero)))) h = refl
nibble-hex (suc (suc (suc (suc (suc zero))))) h = refl
nibble-hex (suc (suc (suc (suc (suc (suc zero)))))) h = refl
nibble-hex (suc (suc (suc (suc (suc (suc (suc zero))))))) h = refl
nibble-hex (suc (suc (suc (suc (suc (suc (suc (suc zero)))))))) h = refl
nibble-hex (suc (suc (suc (suc (suc (suc (suc (suc (suc zero))))))))) h = refl
nibble-hex (suc (suc (suc (suc (suc (suc (suc (suc (suc (suc zero)))))))))) h = refl
nibble-hex (suc (suc (suc (suc (suc (suc (suc (suc (suc (suc (suc zero))))))))))) h = refl
nibble-hex (suc (suc (suc (suc (suc (suc (suc (suc (suc (suc (suc (suc zero)))))))))))) h = refl
nibble-hex (suc (suc (suc (suc (suc (suc (suc (suc (suc (suc (suc (suc (suc zero))))))))))))) h =
    refl
nibble-hex (suc (suc (suc (suc (suc (suc (suc (suc (suc (suc (suc (suc (suc (suc zero))))))))))))))
      h =
    refl
nibble-hex
      (suc (suc (suc (suc (suc (suc (suc (suc (suc (suc (suc (suc (suc (suc (suc zero)))))))))))))))
      h =
    refl
nibble-hex
      (suc
        (suc (suc (suc (suc (suc (suc (suc (suc (suc (suc (suc (suc (suc (suc (suc n))))))))))))))))
      h =
    absurd (omega (arith, h))

unhex-hex : (bs : List ℕ) → AreBytes bs → unhex (hex bs) ≡ bs
unfolding hex unhex
unhex-hex [] h = refl
unhex-hex (b ∷ bs) h =
    rw
      (
        nibble-hex (b / 16) (omega (arith, h.0)),
        nibble-hex (b % 16) (omega arith),
        unhex-hex bs h.1,
      )
      (ap (λ (n : ℕ). n ∷ bs) (omega arith))

fallback-AreBytes : (n : ℕ) (rand : ℕ → ℕ) → AreBytes (fallback n rand)
fallback-AreBytes zero rand = tt
fallback-AreBytes (suc n) rand = (omega arith, fallback-AreBytes n rand)

length-fallback : (n : ℕ) (rand : ℕ → ℕ) → length (fallback n rand) ≡ n
length-fallback zero rand = refl
length-fallback (suc n) rand = ap suc (length-fallback n rand)

-- The bytes behind a text that is made of what RAND_bytes gives, or of what rand gives instead.
abbrev pub drawn : ℕ → Option (List ℕ) → (ℕ → ℕ) → List ℕ
drawn n none rand = fallback n rand
drawn n (some bs) rand = bs

-- A salt shows the bytes that it was made of, two digits for each, so that salts of different
-- bytes differ; this is so for the bytes of RAND_bytes and for the numbers of rand that replace them.
pub unhex-generate_salt :
    (n : ℕ) (bytes : Option (List ℕ)) (rand : ℕ → ℕ)
    → AreBytes (drawn n bytes rand)
    → unhex (generate_salt n bytes rand) ≡ drawn n bytes rand
unfolding generate_salt
unhex-generate_salt n none rand h = unhex-hex (fallback n rand) h
unhex-generate_salt n (some bs) rand h = unhex-hex bs h
