-- ===== src/Login/Leaving.antt =====
-- The page is left by a completed sign-in only.
use netfleet.Common.{◌≡◌, Option, some, Bool, true, ◌||◌, Text, codes}
use netfleet.Json.{Json}
use netfleet.Session.Client.{Env, Tab, ok}
use netfleet.Session.Auth.{login, verify_totp, verify_login_otp, is_final}
use netfleet.Login.{Pending, logging_in, sending, verifying_totp, verifying_otp, has_status}
use netfleet.Login.Sessions.{HasSession}

-- One of the four answers of the API to a sign-in.
abbrev pub is_known : Json → Bool
is_known v =
    has_status v (codes "ok")
    || has_status v (codes "mfa_choice")
    || has_status v (codes "mfa_required")
    || has_status v (codes "otp_required")

-- The call ends at `w` with an answer that completes the sign-in.
abbrev pub Completes : Env → Pending → Tab → Json → Type 0
Completes env (logging_in address word) w v =
    ((login env address word w).1 ≡ ok v) × (is_final v ≡ true)
Completes env (sending token m) w v = ⊥
Completes env (verifying_totp token code) w v = (verify_totp env token code w).1 ≡ ok v
Completes env (verifying_otp token code) w v = (verify_login_otp env token code w).1 ≡ ok v

module _ (env : Env) (next : Text) where
  -- The call that is waited for ends and completes the sign-in with an answer, which the storage then
  -- holds; the page that is gone to is `next`.
  abbrev pub Departs : Option Pending → Tab → Tab → Text → Type 0
  Departs o w w' u =
      (q : Pending) × (v : Json) × (o ≡ some q)
      × Completes env q w v
      × HasSession env v w'.storage
      × (u ≡ next)
