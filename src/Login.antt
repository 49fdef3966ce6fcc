-- ===== src/Login.antt =====
-- The sign-in page (frontend/src/app/login/page.tsx): its state, its handlers, and the calls that it
-- awaits while other handlers can run.
mod Sessions
pub mod Leaving
pub mod Token
pub mod Race
mod Tests
use netfleet.Common.{
  ℕ, zero, suc, Option, none, some, List, [], ◌∷◌, Bool, true, false, ◌&&◌, ◌||◌, Text, codes,
  text_eq, leb, ltb, if◌then◌else◌,
}
use netfleet.Json.{Json, Items, get_text}
use netfleet.Json
use netfleet.Session.Client.{Env, Tab, Result, ok, err, Failure, http, other, has_text}
use netfleet.Session.Auth.{OtpMethod, login, send_otp_code, verify_totp, verify_login_otp}

pub data Phase : Type 0 where
  password choose totp otp : Phase

pub record OtpInfo : Type 0 where
  pub channel : Option Text
  pub destination_hint : Option Text

-- A method to choose: the app, or a code that is sent.
pub data MfaMethod : Type 0 where
  totp : MfaMethod
  sent : OtpMethod → MfaMethod

-- What a handler awaits, with the values that it was called with.
pub data Pending : Type 0 where
  logging_in : Text → Text → Pending
  sending : Text → OtpMethod → Pending
  verifying_totp verifying_otp : Text → Text → Pending

-- `pending` is there exactly while `submitting` is true; `left_for` is where `router.replace` leads.
pub record Page : Type 0 where
  pub phase : Phase
  pub email : Text
  pub password : Text
  pub code : Text
  pub mfa_temp_token : Option Text
  pub otp_info : Option OtpInfo
  pub methods : Json
  pub default_method : Option Json
  pub error : Option Text
  pub pending : Option Pending
  pub left_for : Option Text

unfoldable pub start : Option Text → Page
start error = record {
  phase = Phase.password;
  email = [];
  password = [];
  code = [];
  mfa_temp_token = none;
  otp_info = none;
  methods = Json.array Items.nil;
  default_method = some (Json.text (codes "totp"));
  error = error;
  pending = none;
  left_for = none;
}

-- `if (!mfaTempToken) return;`
abbrev pub with_token : Option Text → Page → (Text → Page) → Page
with_token none p k = p
with_token (some []) p k = p
with_token (some (c ∷ t)) p k = k (c ∷ t)

abbrev pub await_it : Pending → Page → Page
await_it q p = record p { error = none; pending = some q }

-- The form of a phase is submitted.
unfoldable pub submit_in : Phase → Page → Page
submit_in password p = await_it (logging_in p.email p.password) p
submit_in choose p = p
submit_in totp p = with_token p.mfa_temp_token p (λ t. await_it (verifying_totp t p.code) p)
submit_in otp p = with_token p.mfa_temp_token p (λ t. await_it (verifying_otp t p.code) p)

unfoldable pub pick_method : MfaMethod → Page → Page
pick_method MfaMethod.totp p =
    with_token p.mfa_temp_token p (λ t. record p { error = none; phase = Phase.totp })
pick_method (sent m) p = with_token p.mfa_temp_token p (λ t. await_it (sending t m) p)

unfoldable pub reset_to_password : Page → Page
reset_to_password p = record p {
  phase = Phase.password;
  code = [];
  mfa_temp_token = none;
  otp_info = none;
  methods = Json.array Items.nil;
}

-- `methods.length > 1`
unfoldable pub has_choice : Json → Bool
has_choice (Json.array (Items.cons a (Items.cons b more))) = true
has_choice v = false

abbrev pub other_factor : Page → Page
other_factor p = record p { code = []; phase = Phase.choose }

-- `replace(/\D/g, "").slice(0, 8)`
unfoldable pub code_digits : ℕ → Text → Text
code_digits zero t = []
code_digits (suc n) [] = []
code_digits (suc n) (c ∷ t) =
    let more = code_digits (suc n) t in
    if leb b'0' c && leb c b'9' then c ∷ code_digits n t else more

abbrev pub has_status : Json → Text → Bool
has_status v s = elim (get_text (codes "status") v) [ none ↦ false | some t ↦ text_eq t s ]

abbrev leave : Text → Page → Page
leave next p = record p { left_for = some next }

-- The branches of `onSubmitPassword` on the status of the result: a choice of factors, the app's code,
-- a code that was sent, or none of these.
unfoldable pub after_status : Bool → Bool → Bool → Text → Json → Page → Page
after_status true _ _ next v p = record p {
  mfa_temp_token = get_text (codes "mfa_temp_token") v;
  methods = elim (Json.get (codes "methods") v) [ none ↦ Json.null | some ms ↦ ms ];
  default_method = Json.get (codes "default_method") v;
  phase = Phase.choose;
}
after_status false true _ next v p = record p {
  mfa_temp_token = get_text (codes "mfa_temp_token") v;
  phase = Phase.totp;
}
after_status false false true next v p = record p {
  mfa_temp_token = get_text (codes "mfa_temp_token") v;
  otp_info = some (record {
    channel = get_text (codes "channel") v;
    destination_hint = get_text (codes "destination_hint") v;
  });
  phase = Phase.otp;
}
after_status false false false next v p = leave next p

unfoldable pub after_login : Text → Json → Page → Page
unfolding after_status
after_login next v p =
    after_status (has_status v (codes "mfa_choice")) (has_status v (codes "mfa_required"))
      (has_status v (codes "otp_required")) next v p

-- `setError((e as Error).message)`; the functions of auth.ts reject with plain Errors.
abbrev message : Failure → Text
message (other m) = m
message (http status reason body) = reason

abbrev fail : Failure → Page → Page
fail e p = record p { error = some (message e) }

unfoldable pub end_login : Text → Result Json → Page → Page
end_login next (ok v) p = after_login next v p
end_login next (err e) p = fail e p

unfoldable pub end_sending : Result Json → Page → Page
end_sending (ok v) p = record p {
  otp_info = some (record {
    channel = get_text (codes "method") v;
    destination_hint = get_text (codes "destination_hint") v;
  });
  phase = Phase.otp;
}
end_sending (err e) p = fail e p

unfoldable pub end_verify : Text → Result Json → Page → Page
end_verify next (ok v) p = leave next p
end_verify next (err e) p = fail e p

-- `finally { setSubmitting(false); }`
abbrev pub done : Page → Page
done p = record p { pending = none }

module _ (env : Env) (next : Text) where
  -- A call ends, and its handler goes on.
  unfoldable pub resume : Pending → Page → Tab → Page × Tab
  resume (logging_in address word) p w =
      (done (end_login next (login env address word w).1 p), (login env address word w).0)
  resume (sending token m) p w =
      (done (end_sending (send_otp_code env token m w).1 p), (send_otp_code env token m w).0)
  resume (verifying_totp token code) p w =
      (done (end_verify next (verify_totp env token code w).1 p), (verify_totp env token code w).0)
  resume (verifying_otp token code) p w = (
    done (end_verify next (verify_login_otp env token code w).1 p),
    (verify_login_otp env token code w).0,
  )

-- What the user does, and the end of a call.
pub data Event : Type 0 where
  typed_email typed_password typed_code : Text → Event
  submitted reset changed_factor : Event
  picked : MfaMethod → Event
  settled : Event

-- A button that is disabled while `submitting`.
abbrev pub unless_pending : Option Pending → Page → Page → Page
unless_pending none p p' = p'
unless_pending (some q) p p' = p

abbrev pub reset_from : Phase → Page → Page
reset_from password p = p
reset_from _ p = reset_to_password p

abbrev pub other_from : Phase → Page → Page
other_from totp p = if has_choice p.methods then other_factor p else p
other_from otp p = if has_choice p.methods then other_factor p else p
other_from _ p = p

abbrev pub picked_in : Phase → MfaMethod → Page → Page
picked_in choose m p = unless_pending p.pending p (pick_method m p)
picked_in _ m p = p

abbrev pub settle : Env → Text → Option Pending → Page → Tab → Page × Tab
settle env next none p w = (p, w)
settle env next (some q) p w = resume env next q p w

unfoldable pub act : Env → Text → Event → Page → Tab → Page × Tab
act env next (typed_email t) p w = (record p { email = t }, w)
act env next (typed_password t) p w = (record p { password = t }, w)
act env next (typed_code t) p w = (record p { code = code_digits 8 t }, w)
act env next submitted p w = (unless_pending p.pending p (submit_in p.phase p), w)
act env next reset p w = (reset_from p.phase p, w)
act env next changed_factor p w = (other_from p.phase p, w)
act env next (picked m) p w = (picked_in p.phase m p, w)
act env next settled p w = settle env next p.pending p w
