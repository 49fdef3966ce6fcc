-- ===== src/Login/Sessions.antt =====
-- The calls that end a sign-in store what their answer carries.
use netfleet.Common.{◌≡◌, refl, sym, ◌∙◌, inl, inr, Bool-cases, true, Text, codes, arith}
use netfleet.Json.{Json, get_text}
use netfleet.Session.Storage.{AuthStorage, date_of, set_given}
use netfleet.Session.Client.{Env, Tab, Result, ok, err, rethrow}
use netfleet.Session.Auth.{
  login, verify_totp, verify_login_otp, keep, keep_token, is_final, is_null,
}
use netfleet.Session.Auth.SignIn.{login_complete, keep_token-given}

-- The storage holds the access token of a body and its expiry (`undefined` for what is not there).
abbrev pub HasSession : Env → Json → AuthStorage → Type 0
HasSession env v s =
    (s.token ≡ get_text (codes "access_token") v)
    × (s.expires_at ≡ date_of env.date_ms (get_text (codes "expires_at") v))

module _ (env : Env) where
  keep-HasSession :
      (r : Result Json) (w : Tab) (v : Json)
      → rethrow (keep env r w).1 ≡ ok v
      → HasSession env v (keep env r w).0.storage
  unfolding keep keep_token rethrow set_given
  keep-HasSession (err e) w v h = cc
  keep-HasSession (ok b) w v h = elim (Bool-cases (is_null b)) [
    | inl nobody ↦ absurd (ground arith)
    | inr body ↦
        let kept = keep_token-given env b w body in
        let same : v ≡ b = ground arith in rw (kept, same) (refl, refl)
  ]

  pub verify_totp-HasSession :
      (token code : Text) (w : Tab) (v : Json)
      → (verify_totp env token code w).1 ≡ ok v
      → HasSession env v (verify_totp env token code w).0.storage
  unfolding verify_totp
  verify_totp-HasSession token code w v h = keep-HasSession _ _ v h

  pub verify_login_otp-HasSession :
      (token code : Text) (w : Tab) (v : Json)
      → (verify_login_otp env token code w).1 ≡ ok v
      → HasSession env v (verify_login_otp env token code w).0.storage
  unfolding verify_login_otp
  verify_login_otp-HasSession token code w v h = keep-HasSession _ _ v h

  ok_injective : {a b : Json} → ok a ≡ ok b → a ≡ b
  ok_injective e = cc

  pub login-HasSession :
      (address word : Text) (w : Tab) (v : Json)
      → (login env address word w).1 ≡ ok v
      → is_final v ≡ true
      → HasSession env v (login env address word w).0.storage
  unfolding set_given
  login-HasSession address word w v h final =
      let (b, _, result, stored, _) = login_complete env address word w (rw h final) in
      let same : v ≡ b = ok_injective (sym h ∙ result) in rw (stored, same) (refl, refl)
