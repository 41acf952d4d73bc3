-- ===== src/CryptoUtils/Tests.antt =====
-- A library that counts its contexts, and whose digest of every text is one byte.
use qt_web_server_chat.Base.{ℕ, suc, ◌+◌, ◌-◌, ◌≡◌, refl, true, none, some, [], ◌∷◌, arith}
use qt_web_server_chat.CryptoUtils.{Evp, generate_salt, sha256}
use qt_web_server_chat.CryptoUtils.Hex.{unhex, unhex-generate_salt}
use qt_web_server_chat.CryptoUtils.Contexts.{Counts, sha256-live}

abbrev evp : Evp ℕ
evp = record {
  ctx_new = λ n. (true, suc n);
  ctx_free = λ n. n - 1;
  has_sha256 = λ n. true;
  digest_init = λ n. (true, n);
  digest_update = λ s n. (true, n);
  digest_final = λ n. (some (171 ∷ []), n);
}

evp-Counts : Counts evp (λ n. n)
evp-Counts = record {
  ctx_new = λ l. refl;
  ctx_free = λ l. refl;
  digest_init = λ l. refl;
  digest_update = λ s l. refl;
  digest_final = λ l. refl;
}

sha256-live_example : (sha256 evp "secret" 3).1 ≡ 3
sha256-live_example = sha256-live evp (λ n. n) evp-Counts "secret" 3

unhex-generate_salt_example : unhex (generate_salt 2 none (λ n. n + 300)) ≡ 45 ∷ 44 ∷ []
unhex-generate_salt_example =
    unhex-generate_salt 2 none (λ n. n + 300) (omega arith, (omega arith, tt))
