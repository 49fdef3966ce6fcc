-- ===== src/Setup/Guards.antt =====
-- What the page asks for before it sends anything.
use netfleet.Common.{
  ◌≤◌, ◌≡◌, refl, ◌≢◌, ◌⊎◌, inl, inr, none, some, [], false, Text, codes, text_eq, text_eq_iff,
  trim, Bool-cases, Option-cases, arith,
}
use netfleet.Session.Client.{Env, Tab, Result, ok, err}
use netfleet.Session.Auth.{perform_setup}
use netfleet.Setup.{Page, js_length, payload, refusal, submit, end_setup}

-- The password is long enough and typed twice, and there is a token.
pub record IsFit (p : Page) : Type 0 where
  pub long : 12 ≤ js_length p.password
  pub same : p.password ≡ p.confirm
  pub token : trim p.bootstrap_token ≢ []

refusal-IsFit : (p : Page) → refusal p ≡ none → IsFit p
unfolding refusal
refusal-IsFit p h = record {
  long = ground arith;
  same = (text_eq_iff p.password p.confirm).0 (ground arith);
  token = λ e. absurd (ground (arith, (text_eq_iff (trim p.bootstrap_token) []).1 e));
}

blank_false : (t : Text) → t ≢ [] → text_eq t [] ≡ false
blank_false t h = elim (Bool-cases (text_eq t [])) [
  | inl e ↦ absurd (h ((text_eq_iff t []).0 e))
  | inr e ↦ e
]

IsFit-refusal : (p : Page) → IsFit p → refusal p ≡ none
unfolding refusal
IsFit-refusal p fit = ground (
  arith,
  fit.long,
  (text_eq_iff p.password p.confirm).1 fit.same,
  blank_false (trim p.bootstrap_token) fit.token,
)

module _ (env : Env) where
  -- Submitting the page either sends the setup, which it does exactly if the password has 12 units or more,
  -- is typed the same twice, and the token is not blank, and then leaves for the sign-in exactly if
  -- the server accepts; or it sends nothing, shows a message and stays. The page was not left before.
  pub submit-guarded :
      (p : Page) (w : Tab)
      → p.left_for ≡ none
      → let call = perform_setup env (payload p) (trim p.bootstrap_token) w in
        let out = submit env p w in
        (IsFit p
          × (out.1 ≡ call.0)
          × (out.0.left_for
              ≡ elim call.1 [ ok v ↦ some (codes "/login?setup=complete") | err e ↦ none ]))
        ⊎ ((IsFit p → ⊥)
            × (out.1 ≡ w)
            × (out.0.left_for ≡ none)
            × ((m : Text) × (out.0.error ≡ some m)))
  unfolding submit
  submit-guarded p w here = elim (Option-cases (refusal p)) [
    | inl e ↦ rw e (inl (refusal-IsFit p e, refl, ended _))
    | inr (m, e) ↦
        rw e (inr (λ fit. absurd (refused m e (IsFit-refusal p fit)), refl, here, (m, refl)))
  ]
    where
      refused : (m : Text) → refusal p ≡ some m → refusal p ≡ none → ⊥
      refused m e f = absurd (ground arith)

      ended :
          (r : Result (Unit {0}))
          → (end_setup r p).left_for
            ≡ elim r [ ok v ↦ some (codes "/login?setup=complete") | err e ↦ none ]
      ended (ok v) = refl
      ended (err e) = here
