-- ===== src/Login/Tests.antt =====
-- Runs of the sign-in page on concrete answers, and its theorems at inputs that meet their hypotheses.
use netfleet.Common.{
  ◌≡◌, refl, sym, none, some, [], ◌∷◌, true, false, Text, codes, text_eq, includes, ends_with,
  if◌then◌else◌,
}
use netfleet.Json.{Json, Fields, get, get_text}
use netfleet.Session.Storage.{ms, set_access_token, set_given, get_access_token, is_expiring_soon}
use netfleet.Session.Client.{
  Env, Tab, response, token_pair, send, before_request, after_response, fetch, store_token,
  current_token, skips_refresh, skips_retry, await_call, json_call, rethrow, ok, finish_refresh,
  retry, do_refresh,
}
use netfleet.Session.Auth.{
  OtpMethod, login, verify_totp, send_otp_code, is_final, keep_final, keep_token, keep,
}
use netfleet.Login.{
  Phase, sending, verifying_totp, Page, submitted, settled, typed_code, reset, start, act,
  submit_in, resume, end_login, end_verify, end_sending, after_login, after_status, pick_method,
  has_choice, code_digits, reset_to_password,
}
use netfleet.Login.Token.{IsSound, CarriesToken}
use netfleet.Login.Token.Reach.{opened, acted, Reach-IsSound}
use netfleet.Login.Race.{acts, reset-stuck}

abbrev status : Text → Fields → Json
status s fs = Json.object (Fields.field (codes "status") (Json.text s) fs)

-- Asks for the app's code at sign-in, sends codes, and takes any code.
abbrev two_factor : Env
two_factor = record {
  api_base = codes "/api/v1";
  date_ms = λ iso. ms 3600000;
  serve = λ log r.
      if ends_with r.url (codes "/auth/login")
      then (
        response 200 [] (
            some (
              status (codes "mfa_required")
                (Fields.field (codes "mfa_temp_token") (Json.text (codes "temp")) Fields.end))),
        5,
      )
      else (
        response 200 [] (
            some (
              status (codes "ok") (
                Fields.field (codes "access_token") (Json.text (codes "new"))
                  (Fields.field (codes "expires_at") (Json.text (codes "soon")) Fields.end)))),
        5,
      );
}

abbrev tab : Tab
tab = record {
  storage = record {
    token = none;
    expires_at = ms 0;
    listeners = [];
    has_window = true;
    shadow = none;
    heard = [];
  };
  last_refresh_rejected = false;
  now = 100000;
  sent = [];
}

ok_injective : {a b : Json} → ok a ≡ ok b → a ≡ b
ok_injective e = cc

runs : Unit {0}
unfolding ends_with text_eq token_pair get get_text send before_request after_response do_refresh
    finish_refresh retry fetch store_token set_access_token current_token skips_refresh skips_retry
    await_call json_call rethrow set_given login verify_totp send_otp_code is_final keep_final
    keep_token keep start act submit_in resume end_login end_verify end_sending after_login
    after_status pick_method has_choice code_digits reset_to_password get_access_token includes
    is_expiring_soon
runs = tt

abbrev at_code : Page × Tab
at_code = acts two_factor (codes "/dashboard") (submitted ∷ settled ∷ []) (start none) tab

abbrev waiting : Page × Tab
waiting =
    acts two_factor (codes "/dashboard") (typed_code (codes "12 34x56") ∷ submitted ∷ []) at_code.0
      at_code.1

signed_in :
    (at_code.0.phase ≡ Phase.totp)
    × (waiting.0.pending ≡ some (verifying_totp (codes "temp") (codes "123456")))
    × ((act two_factor (codes "/dashboard") settled waiting.0 waiting.1).0.left_for
        ≡ some (codes "/dashboard"))
unfolding runs
signed_in = (refl, refl, refl)

-- A server that asks everyone for the app's code, and one that lets everyone in.
abbrev asking : Env
asking = record two_factor {
  serve = λ log r. (
    response 200 [] (
        some (
          status (codes "mfa_required")
            (Fields.field (codes "mfa_temp_token") (Json.text (codes "temp")) Fields.end))),
    5,
  );
}

abbrev open_door : Env
open_door = record two_factor {
  serve = λ log r. (
    response 200 [] (
        some (
          status (codes "ok") (
            Fields.field (codes "access_token") (Json.text (codes "new"))
              (Fields.field (codes "expires_at") (Json.text (codes "soon")) Fields.end)))),
    5,
  );
}

asking-CarriesToken : CarriesToken asking
unfolding runs
asking-CarriesToken address word w v h asked = rw (sym (ok_injective h)) refl

abbrev entering : Page
entering = submit_in Phase.password (start none)

Reach-IsSound_example :
    IsSound
      (act asking (codes "/") settled (act asking (codes "/") submitted (start none) tab).0 tab).0
Reach-IsSound_example =
    Reach-IsSound asking (codes "/") _ asking-CarriesToken
      (acted settled tab (acted submitted tab (opened none)))

-- The user asks for a code by email, and leaves before it is sent.
abbrev choosing : Page
choosing = record (start none) {
  phase = Phase.choose;
  mfa_temp_token = some (codes "temp");
  pending = some (sending (codes "temp") OtpMethod.email);
}

reset-stuck_example :
    let (p', w') = acts two_factor (codes "/") (reset ∷ settled ∷ []) choosing tab in
    (p'.phase ≡ Phase.otp)
    × (acts two_factor (codes "/") (typed_code (codes "123456") ∷ submitted ∷ []) p' w'
        ≡ (record p' { code = code_digits 8 (codes "123456") }, w'))
unfolding runs
reset-stuck_example =
    reset-stuck two_factor (codes "/") choosing tab (codes "temp") (codes "123456") OtpMethod.email
      _ refl refl refl
