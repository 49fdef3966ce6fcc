-- ===== src/Session/Auth.antt =====
-- frontend/src/lib/auth.ts: sign-in, second factor, sign-out, the signed-in user and the first run.
-- A result that the source casts to an interface stays the JSON value that it is.
pub mod SignIn
pub mod History
use netfleet.Common.{
  Option, none, some, [], ◌∷◌, Bool, true, false, Text, codes, text_eq, ◌==◌, if◌then◌else◌,
}
use netfleet.Json.{Json, Fields, Items, get_text}
use netfleet.Json
use netfleet.Payload.{Optional, opt, req, call, with_json}
use netfleet.Session.Storage.{AuthStorage, clear, set_given}
use netfleet.Session.Client.{
  Method, Env, M, ◌>>=◌, pure, Result, ok, err, http, other, await_call, json_call, rethrow,
}

pub record ProfileUpdate : Type 0 where
  pub display_name : Optional Text
  pub mobile_phone : Optional Text
  pub otp_login_enabled : Optional Bool

pub record ChangePasswordPayload : Type 0 where
  pub current_password : Text
  pub new_password : Text

-- The `method` of a code that is sent.
pub data OtpMethod : Type 0 where
  email sms : OtpMethod

pub record SetupPayload : Type 0 where
  pub organization_name : Text
  pub organization_slug : Text
  pub admin_email : Text
  pub admin_display_name : Text
  pub admin_password : Text

abbrev otp_method : OtpMethod → Json
otp_method email = Json.text (codes "email")
otp_method sms = Json.text (codes "sms")

abbrev pub forget {ℓ} : {A : Type ℓ} → Result A → Result (Unit {0})
forget (ok a) = ok tt
forget (err e) = err e

-- `json.status === "ok"`
unfoldable pub is_final : Json → Bool
is_final v = elim (get_text (codes "status") v) [ none ↦ false | some s ↦ text_eq s (codes "ok") ]

abbrev pub is_null : Json → Bool
is_null Json.null = true
is_null (Json.boolean b) = false
is_null (Json.number n) = false
is_null (Json.text t) = false
is_null (Json.array vs) = false
is_null (Json.object fs) = false

-- Only a 401 means "logged out"; any other failure is thrown. `none` is the value `null`, be it of
-- the catch block or the body itself.
unfoldable pub signed_in : Result Json → Result (Option Json)
signed_in (ok v) = ok (if is_null v then none else some v)
signed_in (err (other m)) = err (other m)
signed_in (err (http status reason body)) =
    if status == 401 then ok none else err (http status reason body)

-- `json.providers ?? []`, and the empty list on any error.
unfoldable pub providers : Result Json → Json
providers (err e) = Json.array Items.nil
providers (ok v) = elim (Json.get (codes "providers") v) [
  | none ↦ Json.array Items.nil
  | some Json.null ↦ Json.array Items.nil
  | some ps ↦ ps
]

module _ (env : Env) where
  abbrev post_call : Text → Fields → M (Result Json)
  post_call path fs = json_call env (with_json fs (call env Method.post path))

  unfoldable pub update_profile : ProfileUpdate → M (Result Json)
  update_profile p = do
    r ← json_call env (
        with_json
          (opt Json.text "display_name" p.display_name (
            opt Json.text "mobile_phone" p.mobile_phone
              (opt Json.boolean "otp_login_enabled" p.otp_login_enabled Fields.end)))
          (call env Method.patch (codes "auth/me")))
    pure (rethrow r)

  -- `authStorage.setAccessToken(json.access_token, json.expires_at)`; a member that is missing, or no
  -- text, is `undefined`.
  abbrev pub given : Json → AuthStorage → AuthStorage
  given v s =
      set_given env.date_ms (get_text (codes "access_token") v) (get_text (codes "expires_at") v) s

  -- With `return json;`. Reading a member of `null` throws.
  unfoldable pub keep_token : Json → M (Result Json)
  keep_token v w =
      if is_null v
      then (w, err (other (codes "Cannot read properties of null")))
      else (record w { storage = given v w.storage }, ok v)

  unfoldable pub keep : Result Json → M (Result Json)
  keep (err e) w = (w, err e)
  keep (ok v) w = keep_token v w

  unfoldable pub change_password : ChangePasswordPayload → M (Result Json)
  change_password p = do
    out ← post_call (codes "auth/change-password") (
        req "current_password" (Json.text p.current_password)
          (req "new_password" (Json.text p.new_password) Fields.end))
    kept ← keep out
    pure (rethrow kept)

  unfoldable pub enroll_totp_begin : M (Result Json)
  enroll_totp_begin = do
    r ← json_call env (call env Method.post (codes "auth/totp/enroll"))
    pure (rethrow r)

  unfoldable pub enroll_totp_confirm : Text → M (Result (Unit {0}))
  enroll_totp_confirm code = do
    r ← await_call env (
        with_json (req "code" (Json.text code) Fields.end)
          (call env Method.post (codes "auth/totp/enroll/confirm")))
    pure (forget (rethrow r))

  unfoldable pub disable_totp : Text → M (Result (Unit {0}))
  disable_totp current_password = do
    r ← await_call env (
        with_json (req "current_password" (Json.text current_password) Fields.end)
          (call env Method.post (codes "auth/totp/disable")))
    pure (forget (rethrow r))

  unfoldable pub send_otp_code : Text → OtpMethod → M (Result Json)
  send_otp_code mfa_temp_token method = do
    r ← post_call (codes "auth/otp/send") (
        req "mfa_temp_token" (Json.text mfa_temp_token)
          (req "method" (otp_method method) Fields.end))
    pure (rethrow r)

  unfoldable pub keep_final : Result Json → M (Result Json)
  keep_final (err e) w = (w, err e)
  keep_final (ok v) w = if is_final v then keep_token v w else (w, ok v)

  unfoldable pub login : Text → Text → M (Result Json)
  login address password = do
    json ←
        post_call (codes "auth/login")
          (req "email" (Json.text address) (req "password" (Json.text password) Fields.end))
    kept ← keep_final json
    pure (rethrow kept)

  unfoldable pub verify_totp : Text → Text → M (Result Json)
  verify_totp mfa_temp_token code = do
    json ←
        post_call (codes "auth/totp/verify")
          (req "mfa_temp_token" (Json.text mfa_temp_token) (req "code" (Json.text code) Fields.end))
    kept ← keep json
    pure (rethrow kept)

  unfoldable pub verify_login_otp : Text → Text → M (Result Json)
  verify_login_otp mfa_temp_token code = do
    json ←
        post_call (codes "auth/otp/verify")
          (req "mfa_temp_token" (Json.text mfa_temp_token) (req "code" (Json.text code) Fields.end))
    kept ← keep json
    pure (rethrow kept)

  -- `finally` runs on both outcomes.
  unfoldable pub logout : M (Result (Unit {0}))
  logout w =
      let (w', r) = await_call env (call env Method.post (codes "auth/logout")) w in
      (record w' { storage = clear w'.storage }, forget r)

  unfoldable pub fetch_me : M (Result (Option Json))
  fetch_me = do r ← json_call env (call env Method.get (codes "auth/me")); pure (signed_in r)

  unfoldable pub fetch_setup_status : M (Result Json)
  fetch_setup_status = json_call env (call env Method.get (codes "setup/status"))

  unfoldable pub fetch_oidc_providers : M Json
  fetch_oidc_providers = do
    r ← json_call env (call env Method.get (codes "auth/oidc/providers"))
    pure (providers r)

  -- The bootstrap token travels in a header.
  unfoldable pub perform_setup : SetupPayload → Text → M (Result (Unit {0}))
  perform_setup p bootstrap_token = do
    r ←
        json_call env
          (record (with_json
            (req "organization_name" (Json.text p.organization_name) (
              req "organization_slug" (Json.text p.organization_slug) (
                req "admin_email" (Json.text p.admin_email) (
                  req "admin_display_name" (Json.text p.admin_display_name)
                    (req "admin_password" (Json.text p.admin_password) Fields.end)))))
            (call env Method.post (codes "setup"))) {
              headers = (codes "X-Bootstrap-Token", bootstrap_token) ∷ [];
            })
    pure (forget (rethrow r))
