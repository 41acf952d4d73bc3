-- ===== src/CryptoUtils.antt =====
-- Services/utils/crypto_utils.{h,cpp}. OpenSSL is a parameter, on a state `Lib` of its own, with `true` for
-- success; RAND_bytes gives the bytes that it was asked for, or nothing.
pub mod Hex
pub mod Contexts
mod Tests
use Prim.Native.String.{char_at, ◌++◌}
use qt_web_server_chat.Base.{
  ℕ, zero, suc, ◌/◌, ◌%◌, String, Bool, true, false, not, Option, none, some, List, [], ◌∷◌,
  if◌then◌else◌,
}

-- EVP_MD_CTX_new, EVP_MD_CTX_free, EVP_sha256, and the three steps of a digest with the one context.
pub record Evp (Lib : Type 0) : Type 0 where
  pub ctx_new : Lib → Bool × Lib
  pub ctx_free : Lib → Lib
  pub has_sha256 : Lib → Bool
  pub digest_init : Lib → Bool × Lib
  pub digest_update : String → Lib → Bool × Lib
  pub digest_final : Lib → Option (List ℕ) × Lib

-- std::hex, std::setw(2) and std::setfill('0') on each of the bytes.
unfoldable pub hex : List ℕ → String
hex [] = String.[]
hex (b ∷ bs) =
    String.◌∷◌ (char_at "0123456789abcdef" (b / 16))
      (String.◌∷◌ (char_at "0123456789abcdef" (b % 16)) (hex bs))

module _ {Lib : Type 0} (evp : Evp Lib) where
  -- The context is freed, and the text returned.
  abbrev freeing : String → Lib → String × Lib
  freeing text l = (text, evp.ctx_free l)

  abbrev finish : Option (List ℕ) × Lib → String × Lib
  finish (none, l) = freeing "" l
  finish (some hash, l) = freeing (hex hash) l

  abbrev or_freeing : Bool × Lib → (Lib → String × Lib) → String × Lib
  or_freeing (good, l) next = if good then next l else freeing "" l

  -- The three steps.
  unfoldable pub digest : String → Lib → String × Lib
  unfolding hex
  digest str l =
      or_freeing (evp.digest_init l)
        (λ k. or_freeing (evp.digest_update str k) (λ j. finish (evp.digest_final j)))

  unfoldable pub sha256 : String → Lib → String × Lib
  unfolding digest
  sha256 str l =
      let r = evp.ctx_new l in
      if not r.0 then ("", r.1) else if evp.has_sha256 r.1 then digest str r.1 else freeing "" r.1

  unfoldable pub salted_sha256 : String → String → Lib → String × Lib
  unfolding sha256
  salted_sha256 str salt = sha256 (str ++ salt)

-- So many numbers of `rand`, each modulo 256; `rand i` is the i-th one, counted down.
abbrev pub fallback : ℕ → (ℕ → ℕ) → List ℕ
fallback zero rand = []
fallback (suc n) rand = (rand n % 256) ∷ fallback n rand

unfoldable pub generate_salt : ℕ → Option (List ℕ) → (ℕ → ℕ) → String
unfolding hex
generate_salt length none rand = hex (fallback length rand)
generate_salt length (some salt) rand = hex salt

unfoldable pub generate_secure_token : Option (List ℕ) → (ℕ → ℕ) → String
unfolding generate_salt
generate_secure_token = generate_salt 32
