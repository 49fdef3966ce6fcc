-- ===== src/Login/Token/Reach.antt =====
-- Every event of the sign-in page keeps its phase and its token together.
use netfleet.Common.{
  ◌≡◌, refl, ap, sym, subst, ◌∙◌, inl, inr, Option, none, some, [], ◌∷◌, true, Text, Bool-cases,
  if◌then◌else◌,
}
use netfleet.Session.Client.{Env, Tab, has_text}
use netfleet.Login.{
  Phase, Page, Pending, logging_in, sending, verifying_totp, verifying_otp, MfaMethod, sent, Event,
  typed_email, typed_password, typed_code, submitted, reset, changed_factor, picked, settled, start,
  with_token, await_it, has_choice, submit_in, pick_method, other_factor, unless_pending, picked_in,
  other_from, reset_from, settle, reset_to_password, act,
}
use netfleet.Login.Token.{IsSound, CarriesToken, resume-IsSound}

with_token-IsSound :
    (token : Option Text) (p : Page) (k : Text → Page)
    → ((t : Text) → has_text (some t) ≡ true → token ≡ some t → IsSound (k t))
    → IsSound p
    → IsSound (with_token token p k)
with_token-IsSound none p k k-sound s = s
with_token-IsSound (some []) p k k-sound s = s
with_token-IsSound (some (c ∷ t)) p k k-sound s = k-sound (c ∷ t) refl refl

-- A call that begins keeps the page where it is.
await_it-IsSound : (q : Pending) (p : Page) → IsSound p → IsSound (await_it q p)
await_it-IsSound q p s = record { held = s.held; choosable = s.choosable; informed = s.informed }

submit_in-IsSound : (f : Phase) (p : Page) → IsSound p → IsSound (submit_in f p)
unfolding submit_in
submit_in-IsSound Phase.password p s = await_it-IsSound (logging_in p.email p.password) p s
submit_in-IsSound Phase.choose p s = s
submit_in-IsSound Phase.totp p s =
    with_token-IsSound p.mfa_temp_token p (λ t. await_it (verifying_totp t p.code) p)
      (λ t filled e. await_it-IsSound (verifying_totp t p.code) p s) s
submit_in-IsSound Phase.otp p s =
    with_token-IsSound p.mfa_temp_token p (λ t. await_it (verifying_otp t p.code) p)
      (λ t filled e. await_it-IsSound (verifying_otp t p.code) p s) s

pick_method-IsSound : (m : MfaMethod) (p : Page) → IsSound p → IsSound (pick_method m p)
unfolding pick_method
pick_method-IsSound MfaMethod.totp p s =
    with_token-IsSound p.mfa_temp_token p (λ t. record p { error = none; phase = Phase.totp })
      (λ t filled e. record {
        held = ap has_text e ∙ filled;
        choosable = s.choosable;
        informed = tt;
      })
      s
pick_method-IsSound (sent m) p s =
    with_token-IsSound p.mfa_temp_token p (λ t. await_it (sending t m) p)
      (λ t filled e. await_it-IsSound (sending t m) p s) s

unless_pending-IsSound :
    (q : Option Pending) (p p' : Page) → IsSound p → IsSound p' → IsSound (unless_pending q p p')
unless_pending-IsSound none p p' s s' = s'
unless_pending-IsSound (some q) p p' s s' = s

picked_in-IsSound : (f : Phase) (m : MfaMethod) (p : Page) → IsSound p → IsSound (picked_in f m p)
picked_in-IsSound Phase.password m p s = s
picked_in-IsSound Phase.choose m p s =
    unless_pending-IsSound p.pending p (pick_method m p) s (pick_method-IsSound m p s)
picked_in-IsSound Phase.totp m p s = s
picked_in-IsSound Phase.otp m p s = s

-- A choice is offered only while there is a token.
has_choice-token :
    (p : Page) → has_choice p.methods ≡ true → IsSound p → has_text p.mfa_temp_token ≡ true
has_choice-token p many s = elim s.choosable [ inl filled ↦ filled | inr few ↦ cc ]

chosen-IsSound :
    (p : Page) → IsSound p → IsSound (if has_choice p.methods then other_factor p else p)
chosen-IsSound p s = elim (Bool-cases (has_choice p.methods)) [
  | inl many ↦
      subst (λ b. IsSound (if b then other_factor p else p)) (sym many)
        (record { held = has_choice-token p many s; choosable = s.choosable; informed = tt })
  | inr few ↦ subst (λ b. IsSound (if b then other_factor p else p)) (sym few) s
]

other_from-IsSound : (f : Phase) (p : Page) → IsSound p → IsSound (other_from f p)
other_from-IsSound Phase.password p s = s
other_from-IsSound Phase.choose p s = s
other_from-IsSound Phase.totp p s = chosen-IsSound p s
other_from-IsSound Phase.otp p s = chosen-IsSound p s

reset_to_password-IsSound : (p : Page) → IsSound (reset_to_password p)
unfolding reset_to_password has_choice
reset_to_password-IsSound p = record { held = refl; choosable = inr refl; informed = tt }

reset_from-IsSound : (f : Phase) (p : Page) → IsSound p → IsSound (reset_from f p)
reset_from-IsSound Phase.password p s = s
reset_from-IsSound Phase.choose p s = reset_to_password-IsSound p
reset_from-IsSound Phase.totp p s = reset_to_password-IsSound p
reset_from-IsSound Phase.otp p s = reset_to_password-IsSound p

module _ (env : Env) (next : Text) where
  settle-IsSound :
      (o : Option Pending) (p : Page) (w : Tab)
      → CarriesToken env
      → IsSound p
      → IsSound (settle env next o p w).0
  settle-IsSound none p w token s = s
  settle-IsSound (some q) p w token s = resume-IsSound env next q p w token s

  act-IsSound :
      (e : Event) (p : Page) (w : Tab)
      → CarriesToken env
      → IsSound p
      → IsSound (act env next e p w).0
  unfolding act
  act-IsSound (typed_email t) p w token s = record {
    held = s.held;
    choosable = s.choosable;
    informed = s.informed;
  }
  act-IsSound (typed_password t) p w token s = record {
    held = s.held;
    choosable = s.choosable;
    informed = s.informed;
  }
  act-IsSound (typed_code t) p w token s = record {
    held = s.held;
    choosable = s.choosable;
    informed = s.informed;
  }
  act-IsSound submitted p w token s =
      unless_pending-IsSound p.pending p (submit_in p.phase p) s (submit_in-IsSound p.phase p s)
  act-IsSound reset p w token s = reset_from-IsSound p.phase p s
  act-IsSound changed_factor p w token s = other_from-IsSound p.phase p s
  act-IsSound (picked m) p w token s = picked_in-IsSound p.phase m p s
  act-IsSound settled p w token s = settle-IsSound p.pending p w token s

  -- The pages that a user can come to. Between two events the tab is what other code has made of it.
  pub data Reach : Page → Type 0 where
    opened : (error : Option Text) → Reach (start error)
    acted : {p : Page} → (e : Event) (w : Tab) → Reach p → Reach (act env next e p w).0

  -- Whatever the user does and whenever calls end, and also when the tab changes in between: the page
  -- asks for the app's code or for a choice only with a temporary token, the password phase has none,
  -- a choice among several methods is kept only with a token, and the phase of a sent code knows
  -- where it was sent, as long as the API gives a token whenever it asks for a second factor.
  pub Reach-IsSound : (p : Page) → CarriesToken env → Reach p → IsSound p
  unfolding start has_choice
  Reach-IsSound p token (opened error) = record { held = refl; choosable = inr refl; informed = tt }
  Reach-IsSound p token (acted {p = before} e w r) =
      act-IsSound e before w token (Reach-IsSound before token r)
