-- ===== src/Login/Race.antt =====
-- What happens when the user goes back to the password while a code is being sent.
use netfleet.Common.{◌≡◌, refl, some, List, [], ◌∷◌, Text}
use netfleet.Json.{Json}
use netfleet.Session.Client.{Env, Tab, ok}
use netfleet.Session.Auth.{OtpMethod, send_otp_code}
use netfleet.Login.{
  Phase, sending, Page, Event, submitted, typed_code, reset, settled, submit_in, reset_to_password,
  end_sending, resume, act, code_digits,
}

module _ (env : Env) (next : Text) where
  -- The page and the tab after some events.
  abbrev pub acts : List Event → Page → Tab → Page × Tab
  acts [] p w = (p, w)
  acts (e ∷ es) p w = acts es (act env next e p w).0 (act env next e p w).1

  -- If the user goes back to the password while a code is being sent, and it then has been sent, the
  -- page asks for that code, but has no use for it: whatever is typed and submitted, no request is
  -- made and no error is shown.
  pub reset-stuck :
      (p : Page) (w : Tab) (token code : Text) (m : OtpMethod) (v : Json)
      → p.phase ≡ Phase.choose
      → p.pending ≡ some (sending token m)
      → (send_otp_code env token m w).1 ≡ ok v
      → let (p', w') = acts (reset ∷ settled ∷ []) p w in
        (p'.phase ≡ Phase.otp)
        × (acts (typed_code code ∷ submitted ∷ []) p' w'
            ≡ (record p' { code = code_digits 8 code }, w'))
  unfolding act reset_to_password resume end_sending submit_in
  reset-stuck p w token code m v chosen waits sent = rw (chosen, waits, sent) (refl, refl)
