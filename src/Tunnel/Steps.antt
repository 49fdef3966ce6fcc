-- ===== src/Tunnel/Steps.antt =====
-- No handler of the wizard loses what was asked for before its step.
use netfleet.Common.{
  ◌≡◌, refl, sym, ap, ◌∙◌, Option, none, some, List, [], ◌∷◌, Bool, true, false, arith, Text,
  text_eq, trim, trim_start, trim_end, Bool-cases, inl, inr, subst, if◌then◌else◌,
}
use netfleet.Json.{Json}
use netfleet.Session.Client.{Result, ok, err}
use netfleet.Api.SiteToSite.{S2SCreateRequest}
use netfleet.Tunnel.{
  Step, pick, addressing, subnets, firewall, review, done, Wizard, filled, can_advance, payload,
  is_at, at, mutate, go_next, go_back, first_of, end_apply,
}
use netfleet.Tunnel.Fit.{IsFit, addressed-fields, payload-IsFit}

-- What has been asked for before a step.
abbrev pub IsReady : Step → Wizard → Type 0
IsReady pick w = Unit
IsReady addressing w = can_advance pick w ≡ true
IsReady done w = Unit
IsReady _ w = (can_advance pick w ≡ true) × (can_advance addressing w ≡ true)

pub record IsSound (w : Wizard) : Type 0 where
  pub ready : IsReady w.step w
  pub fit : (r : S2SCreateRequest) → w.pending ≡ some r → IsFit r

-- A change that keeps what was asked for.
pub Ready-kept :
    (s : Step) (w w' : Wizard)
    → can_advance pick w' ≡ can_advance pick w
    → can_advance addressing w' ≡ can_advance addressing w
    → IsReady s w
    → IsReady s w'
Ready-kept pick w w' e f h = tt
Ready-kept addressing w w' e f h = e ∙ h
Ready-kept subnets w w' e f h = (e ∙ h.0, f ∙ h.1)
Ready-kept firewall w w' e f h = (e ∙ h.0, f ∙ h.1)
Ready-kept review w w' e f h = (e ∙ h.0, f ∙ h.1)
Ready-kept done w w' e f h = tt

-- A change of the step that it is made in.
pub picked-Ready : (s : Step) (w' : Wizard) → is_at pick s ≡ true → IsReady s w'
picked-Ready pick w' h = tt
picked-Ready addressing w' h = cc
picked-Ready subnets w' h = cc
picked-Ready firewall w' h = cc
picked-Ready review w' h = cc
picked-Ready done w' h = tt

typed-Ready :
    (s : Step) (w w' : Wizard)
    → can_advance pick w' ≡ can_advance pick w
    → is_at addressing s ≡ true
    → IsReady s w
    → IsReady s w'
typed-Ready pick w w' e h r = tt
typed-Ready addressing w w' e h r = e ∙ r
typed-Ready subnets w w' e h r = cc
typed-Ready firewall w w' e h r = cc
typed-Ready review w w' e h r = cc
typed-Ready done w w' e h r = tt

at-IsSound :
    (s : Step) (w w' : Wizard)
    → (is_at s w.step ≡ true → IsSound w')
    → IsSound w
    → IsSound (at s w w')
at-IsSound s w w' there sound = elim (Bool-cases (is_at s w.step)) [
  | inl e ↦ subst (λ b. IsSound (if b then w' else w)) (sym e) (there e)
  | inr e ↦ subst (λ b. IsSound (if b then w' else w)) (sym e) sound
]

module _ (w : Wizard) where
  mutate-IsSound :
      (o : Option S2SCreateRequest)
      → w.step ≡ review
      → w.pending ≡ o
      → IsSound w
      → IsSound (mutate o w)
  unfolding can_advance
  mutate-IsSound (some r) e f s = s
  mutate-IsSound none e f s =
      let (chosen, addressed) = subst (λ t. IsReady t w) e s.ready in
      record {
        ready = Ready-kept w.step w (record w { pending = some (payload w) }) refl refl s.ready;
        fit = λ r g. subst IsFit (some_injective g) (payload-IsFit w chosen addressed);
      }
    where
      some_injective : {r r' : S2SCreateRequest} → some r ≡ some r' → r ≡ r'
      some_injective g = cc

  pub go_next-IsSound : (s : Step) → w.step ≡ s → IsSound w → IsSound (go_next s w)
  unfolding go_next can_advance
  go_next-IsSound pick e s = elim (Bool-cases (can_advance pick w)) [
    | inl h ↦
        subst (λ b. IsSound (if b then record w { step = addressing } else w)) (sym h)
          (record { ready = h; fit = s.fit })
    | inr h ↦ subst (λ b. IsSound (if b then record w { step = addressing } else w)) (sym h) s
  ]
  go_next-IsSound addressing e s = elim (Bool-cases (can_advance addressing w)) [
    | inl h ↦
        subst (λ b. IsSound (if b then record w { step = subnets } else w)) (sym h)
          (record { ready = (subst (λ t. IsReady t w) e s.ready, h); fit = s.fit })
    | inr h ↦ subst (λ b. IsSound (if b then record w { step = subnets } else w)) (sym h) s
  ]
  go_next-IsSound subnets e s = record { ready = subst (λ t. IsReady t w) e s.ready; fit = s.fit }
  go_next-IsSound firewall e s = record { ready = subst (λ t. IsReady t w) e s.ready; fit = s.fit }
  go_next-IsSound review e s = mutate-IsSound w.pending e refl s
  go_next-IsSound done e s = s

  pub go_back-IsSound : (s : Step) → w.step ≡ s → IsSound w → IsSound (go_back s w)
  unfolding go_back can_advance
  go_back-IsSound pick e s = s
  go_back-IsSound addressing e s = record { ready = tt; fit = s.fit }
  go_back-IsSound subnets e s = record {
    ready = (subst (λ t. IsReady t w) e s.ready).0;
    fit = s.fit;
  }
  go_back-IsSound firewall e s = record { ready = subst (λ t. IsReady t w) e s.ready; fit = s.fit }
  go_back-IsSound review e s = record { ready = subst (λ t. IsReady t w) e s.ready; fit = s.fit }
  go_back-IsSound done e s = s

  pub end_apply-IsSound :
      (o : Option S2SCreateRequest) (r : Result Json) → IsSound w → IsSound (end_apply o r w)
  unfolding can_advance
  end_apply-IsSound none r s = s
  end_apply-IsSound (some p) (ok v) s = record { ready = tt; fit = λ r g. cc }
  end_apply-IsSound (some p) (err e) s = record {
    ready = Ready-kept w.step w (record w { pending = none }) refl refl s.ready;
    fit = λ r g. cc;
  }

not_filled : (t : Text) → filled t ≡ false → t ≡ []
unfolding text_eq
not_filled [] h = refl
not_filled (c ∷ t) h = absurd (ground arith)

-- Past the second step the field of the endpoint is not empty.
endpoint-filled :
    (w : Wizard) → can_advance addressing w ≡ true → filled w.public_endpoint ≡ false → ⊥
unfolding trim trim_start trim_end
endpoint-filled w addressed empty =
    (addressed-fields w addressed).2 (ap trim (not_filled w.public_endpoint empty))

suggested-Ready :
    (s : Step) (w : Wizard) (address : Text)
    → filled w.public_endpoint ≡ false
    → IsReady s w
    → IsReady s (record w { public_endpoint = address })
unfolding can_advance
suggested-Ready pick w a empty r = tt
suggested-Ready addressing w a empty r = r
suggested-Ready subnets w a empty r = absurd (endpoint-filled w r.1 empty)
suggested-Ready firewall w a empty r = absurd (endpoint-filled w r.1 empty)
suggested-Ready review w a empty r = absurd (endpoint-filled w r.1 empty)
suggested-Ready done w a empty r = tt

-- The effect on the suggestions fills in an empty field only.
pub first_of-IsSound :
    (addresses : List Text) (w : Wizard) → IsSound w → IsSound (first_of addresses w)
first_of-IsSound [] w s = s
first_of-IsSound (a ∷ more) w s = elim (Bool-cases (filled w.public_endpoint)) [
  | inl h ↦ subst (λ b. IsSound (if b then w else record w { public_endpoint = a })) (sym h) s
  | inr h ↦
      subst (λ b. IsSound (if b then w else record w { public_endpoint = a })) (sym h)
        (record { ready = suggested-Ready w.step w a h s.ready; fit = s.fit })
]

module _ (w : Wizard) (s : IsSound w) where
  -- A choice of a device that is one of the options.
  pub picked-IsSound :
      (b : Bool) (w' : Wizard)
      → (is_at pick w.step ≡ true → IsSound w')
      → IsSound (at pick w (if b then w' else w))
  picked-IsSound b w' there = at-IsSound pick w (if b then w' else w) (chosen b) s
    where
      chosen : (b : Bool) → is_at pick w.step ≡ true → IsSound (if b then w' else w)
      chosen true h = there h
      chosen false h = s

  -- A field of a step that is not asked for before a later one.
  pub kept-IsSound :
      (at_step : Step) (w' : Wizard)
      → w'.step ≡ w.step
      → w'.pending ≡ w.pending
      → can_advance pick w' ≡ can_advance pick w
      → can_advance addressing w' ≡ can_advance addressing w
      → IsSound (at at_step w w')
  kept-IsSound at_step w' e f g h =
      at-IsSound at_step w w'
        (λ _. record {
          ready = subst (λ t. IsReady t w') (sym e) (Ready-kept w.step w w' g h s.ready);
          fit = λ r p. s.fit r (sym f ∙ p);
        })
        s

  pub typed-IsSound :
      (w' : Wizard)
      → w'.step ≡ w.step
      → w'.pending ≡ w.pending
      → can_advance pick w' ≡ can_advance pick w
      → IsSound (at addressing w w')
  typed-IsSound w' e f g =
      at-IsSound addressing w w'
        (λ h. record {
          ready = subst (λ t. IsReady t w') (sym e) (typed-Ready w.step w w' g h s.ready);
          fit = λ r p. s.fit r (sym f ∙ p);
        })
        s
