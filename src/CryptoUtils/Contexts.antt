-- ===== src/CryptoUtils/Contexts.antt =====
-- The contexts of Services/utils/crypto_utils.cpp: each is freed.
use qt_web_server_chat.Base.{
  ℕ, suc, ◌-◌, ◌≡◌, ◌∙◌, String, Bool, true, false, Option, none, some, List, arith, if◌then◌else◌,
}
use qt_web_server_chat.CryptoUtils.{Evp, finish, or_freeing, digest, sha256}

-- What OpenSSL documents about the number of live contexts.
pub record Counts {Lib : Type 0} (evp : Evp Lib) (live : Lib → ℕ) : Type 0 where
  pub ctx_new :
      (l : Lib) → live (evp.ctx_new l).1 ≡ (if (evp.ctx_new l).0 then suc (live l) else live l)
  pub ctx_free : (l : Lib) → live (evp.ctx_free l) ≡ live l - 1
  pub digest_init : (l : Lib) → live (evp.digest_init l).1 ≡ live l
  pub digest_update : (s : String) (l : Lib) → live (evp.digest_update s l).1 ≡ live l
  pub digest_final : (l : Lib) → live (evp.digest_final l).1 ≡ live l

module _ {Lib : Type 0} (evp : Evp Lib) (live : Lib → ℕ) (counts : Counts evp live) where
  finish-live : (r : Option (List ℕ) × Lib) → live (finish evp r).1 ≡ live r.1 - 1
  finish-live (none, l) = counts.ctx_free l
  finish-live (some hash, l) = counts.ctx_free l

  or_freeing-live :
      (n : ℕ) (r : Bool × Lib) (next : Lib → String × Lib)
      → live r.1 ≡ suc n
      → ((l : Lib) → live l ≡ suc n → live (next l).1 ≡ n)
      → live (or_freeing evp r next).1 ≡ n
  or_freeing-live n (true, l) next h k = k l h
  or_freeing-live n (false, l) next h k = omega (arith, counts.ctx_free l, h)

  digest-live : (n : ℕ) (str : String) (l : Lib) → live l ≡ suc n → live (digest evp str l).1 ≡ n
  unfolding digest
  digest-live n str l h =
      or_freeing-live n (evp.digest_init l)
        (λ k. or_freeing evp (evp.digest_update str k) (λ j. finish evp (evp.digest_final j)))
        (counts.digest_init l ∙ h)
        λ k g.
          or_freeing-live n (evp.digest_update str k) (λ j. finish evp (evp.digest_final j))
            (counts.digest_update str k ∙ g)
            λ j e. omega (arith, finish-live (evp.digest_final j), counts.digest_final j, e)

  -- sha256 leaves as many contexts as there were before, on every path: when the context or the
  -- algorithm is missing, and when any of the three steps fails or none. It is assumed that OpenSSL's calls
  -- change the number of contexts as documented.
  pub sha256-live : (str : String) (l : Lib) → live (sha256 evp str l).1 ≡ live l
  unfolding sha256
  sha256-live str l = ground (
    arith,
    counts.ctx_new l,
    counts.ctx_free (evp.ctx_new l).1,
    digest-live (live l) str (evp.ctx_new l).1,
  )
