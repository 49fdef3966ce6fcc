-- ===== src/Setup/Slug.antt =====
-- What a slug is made of.
use netfleet.Common.{
  ℕ, zero, suc, ◌≤◌, ◌≡◌, refl, ap, sym, ◌∙◌, subst, [], ◌∷◌, Bool, true, false, ◌&&◌, ◌||◌, ◌==◌,
  Text, text_eq, trim, All, length, Bool-cases, inl, inr, arith, if◌then◌else◌,
}
use netfleet.Setup.{
  Page, is_slug_char, dashed, strip_start, strip_end, take, without_last, slugify, derive,
}

-- A small letter, a digit or a dash.
abbrev pub IsSlugChar : ℕ → Type 0
IsSlugChar c = (is_slug_char c || c == b'-') ≡ true

abbrev pub IsStart : Text → Type 0
IsStart [] = Unit
IsStart (c ∷ t) = (c == b'-') ≡ false

-- The first character of a run gives a dash.
run_of :
    (after : Bool) (t : Text) → All IsSlugChar t → All IsSlugChar (if after then t else b'-' ∷ t)
unfolding is_slug_char
run_of true t h = h
run_of false t h = (refl, h)

dashed-All : (after : Bool) (t : Text) → All IsSlugChar (dashed after t)
unfolding dashed is_slug_char
dashed-All after [] = tt
dashed-All after (c ∷ t) = elim (Bool-cases (is_slug_char c)) [
  | inl e ↦ rw e (rw e refl, dashed-All false t)
  | inr e ↦ rw e (run_of after (dashed true t) (dashed-All true t))
]

module _ (P : ℕ → Type 0) where
  strip_start-All : (t : Text) → All P t → All P (strip_start t)
  unfolding strip_start
  strip_start-All [] h = tt
  strip_start-All (c ∷ t) h = elim (Bool-cases (c == b'-')) [
    | inl e ↦ rw e (strip_start-All t h.1)
    | inr e ↦ rw e h
  ]

  strip_end-All : (t : Text) → All P t → All P (strip_end t)
  unfolding strip_end
  strip_end-All [] h = tt
  strip_end-All (c ∷ t) h = elim (Bool-cases (c == b'-' && text_eq (strip_end t) [])) [
    | inl e ↦ rw e tt
    | inr e ↦ rw e (h.0, strip_end-All t h.1)
  ]

  take-All : (n : ℕ) (t : Text) → All P t → All P (take n t)
  unfolding take
  take-All zero t h = tt
  take-All (suc n) [] h = tt
  take-All (suc n) (c ∷ t) h = (h.0, take-All n t h.1)

strip_start-IsStart : (t : Text) → IsStart (strip_start t)
unfolding strip_start
strip_start-IsStart [] = tt
strip_start-IsStart (c ∷ t) = elim (Bool-cases (c == b'-')) [
  | inl e ↦ rw e (strip_start-IsStart t)
  | inr e ↦ subst (λ b. IsStart (if b then strip_start t else c ∷ t)) (sym e) e
]

strip_end-IsStart : (t : Text) → IsStart t → IsStart (strip_end t)
unfolding strip_end
strip_end-IsStart [] h = tt
strip_end-IsStart (c ∷ t) h = elim (Bool-cases (c == b'-' && text_eq (strip_end t) [])) [
  | inl e ↦ rw e tt
  | inr e ↦ subst (λ b. IsStart (if b then [] else c ∷ strip_end t)) (sym e) h
]

take-IsStart : (n : ℕ) (t : Text) → IsStart t → IsStart (take n t)
unfolding take
take-IsStart zero t h = tt
take-IsStart (suc n) [] h = tt
take-IsStart (suc n) (c ∷ t) h = h

length-take : (n : ℕ) (t : Text) → length (take n t) ≤ n
unfolding take
length-take zero t = omega arith
length-take (suc n) [] = omega arith
length-take (suc n) (c ∷ t) = omega (arith, length-take n t)

module _ (lower : Text → Text) where
  -- The slug is empty, or that of the name without its last character.
  abbrev follows : Page → Bool
  follows p = text_eq p.org_slug [] || text_eq p.org_slug (slugify lower (without_last p.org_name))

  abbrev with_slug : Page → Page
  with_slug p = record p { org_slug = slugify lower p.org_name }

  derive-follows : (p : Page) → follows p ≡ true → derive lower p ≡ with_slug p
  unfolding derive
  derive-follows p e = rw e refl

  derive-kept : (p : Page) → follows p ≡ false → derive lower p ≡ p
  unfolding derive
  derive-kept p e = rw e refl

  derive-with_slug : (p : Page) → derive lower (with_slug p) ≡ with_slug p
  derive-with_slug p = elim (Bool-cases (follows (with_slug p))) [
    | inl e ↦ derive-follows (with_slug p) e
    | inr e ↦ derive-kept (with_slug p) e
  ]

  derive-derive : (p : Page) → derive lower (derive lower p) ≡ derive lower p
  derive-derive p = elim (Bool-cases (follows p)) [
    | inl e ↦
        let changed = derive-follows p e in
        ap (derive lower) changed ∙ derive-with_slug p ∙ sym changed
    | inr e ↦ ap (derive lower) (derive-kept p e)
  ]

  -- A slug has at most 63 characters, all of them small letters, digits and dashes, of which the first is
  -- no dash. The effect that derives the slug from the name is at rest after one run.
  pub slugify-IsSlug :
      (s : Text) (p : Page)
      → All IsSlugChar (slugify lower s)
        × IsStart (slugify lower s)
        × (length (slugify lower s) ≤ 63)
        × (derive lower (derive lower p) ≡ derive lower p)
  unfolding slugify
  slugify-IsSlug s p =
      let d = dashed false (trim (lower s)) in
      let start = strip_start d in
      let end = strip_end start in
      (
        take-All IsSlugChar 63 end (
            strip_end-All IsSlugChar start
              (strip_start-All IsSlugChar d (dashed-All false (trim (lower s))))),
        take-IsStart 63 end (strip_end-IsStart start (strip_start-IsStart d)),
        length-take 63 end,
        derive-derive p,
      )
