-- ===== src/HttpSession/Tests.antt =====
-- Rate limits and tokens on concrete requests.
use Prim.Native.Nat.{min}
use qt_web_server_chat.Base.{
  ℕ, ◌+◌, ◌≡◌, ◌≢◌, refl, String, some, List, [], ◌∷◌, ◌++◌, arith, lookup,
}
use qt_web_server_chat.HttpSession.RateLimit.{allowed_in, requests_of, rate_limit_exact}
use qt_web_server_chat.HttpSession.Token.{Text, underscore, prefix, verify_token}
use qt_web_server_chat.HttpSession.Token.Format.{Avoids, verify_token_accepts, verify_token_form}

-- Three more requests within a minute of the first, one of them another client's.
abbrev trace : List (String × ℕ)
trace = ("a", 1000000000) ∷ ("b", 2000000000) ∷ ("a", 3000000000) ∷ []

rate_limit_exact_example :
    allowed_in [] 2 60 "a" (("a", 0) ∷ trace) ≡ min (requests_of "a" trace + 1) 2
unfolding lookup
rate_limit_exact_example =
    rate_limit_exact 2 60 0 "a" trace [] refl (omega arith)
      ((λ h. omega arith), ((λ h. omega arith), ((λ h. omega arith), tt)))

abbrev ann : Text
ann = b'a' ∷ b'n' ∷ b'n' ∷ []

-- token_ann_x_y
abbrev forged : Text
forged = prefix ++ (ann ++ (underscore ∷ (b'x' ∷ []) ++ (underscore ∷ b'y' ∷ [])))

verify_token_accepts_example : verify_token forged ≡ some ann
verify_token_accepts_example = verify_token_accepts ann (b'x' ∷ []) (b'y' ∷ []) (cc) (omega arith)

verify_token_form_example :
    (a b : Text) × (forged ≡ prefix ++ (ann ++ (underscore ∷ (a ++ (underscore ∷ b)))))
    × (ann ≢ [])
    × Avoids underscore ann
verify_token_form_example =
    verify_token_form forged ann
      (verify_token_accepts ann (b'x' ∷ []) (b'y' ∷ []) (cc) (omega arith))
