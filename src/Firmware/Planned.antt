-- ===== src/Firmware/Planned.antt =====
-- What is planned of the groups: the devices that are selected and offered, each once, in their group.
use netfleet.Common.{
  ℕ, ◌+◌, ◌≡◌, refl, ◌∙◌, List, [], ◌∷◌, ◌++◌, Bool, true, ◌&&◌, Text, text_eq, has, sort, insert,
  sort-All, All, All-append, Bool-cases, inl, inr, arith, if◌then◌else◌,
}
use netfleet.Firmware.{Device, upgradable}
use netfleet.Firmware.Groups.{
  Group, key_of, push, collect, device_le, group_le, sort_each, groups_of, plan_group, plan,
}
use netfleet.Firmware.Owned.{IsOwn, IsGood, IsCleanDevice, collect-IsGood, with_devices-IsGood}

-- How many devices have a property.
abbrev pub one_if : Bool → ℕ
one_if b = if b then 1 else 0

abbrev pub count : (Device → Bool) → List Device → ℕ
count p [] = 0
count p (d ∷ devices) = one_if (p d) + count p devices

-- The same in all groups, and among the steps of a plan.
abbrev held : (Device → Bool) → List Group → ℕ
held p [] = 0
held p (g ∷ groups) = count p g.devices + held p groups

abbrev pub tally : (Device → Bool) → List (Device × Group) → ℕ
tally p [] = 0
tally p ((d, g) ∷ steps) = one_if (p d) + tally p steps

zero_add : (n : ℕ) → 0 + n ≡ n
zero_add n = omega arith

module _ (p : Device → Bool) where
  count-append : (xs ys : List Device) → count p (xs ++ ys) ≡ count p xs + count p ys
  count-append [] ys = omega arith
  count-append (x ∷ xs) ys = omega (arith, count-append xs ys)

  count-insert :
      (le : Device → Device → Bool) (x : Device) (xs : List Device)
      → count p (insert le x xs) ≡ one_if (p x) + count p xs
  unfolding insert
  count-insert le x [] = omega arith
  count-insert le x (y ∷ ys) = elim (Bool-cases (le x y)) [
    | inl e ↦ rw e refl
    | inr e ↦ rw (e, count-insert le x ys) (omega arith)
  ]

  count-sort : (le : Device → Device → Bool) (xs : List Device) → count p (sort le xs) ≡ count p xs
  unfolding sort
  count-sort le [] = refl
  count-sort le (x ∷ xs) = count-insert le x (sort le xs) ∙ rw (count-sort le xs) refl

  held-insert :
      (le : Group → Group → Bool) (g : Group) (gs : List Group)
      → held p (insert le g gs) ≡ count p g.devices + held p gs
  unfolding insert
  held-insert le g [] = omega arith
  held-insert le g (y ∷ ys) = elim (Bool-cases (le g y)) [
    | inl e ↦ rw e refl
    | inr e ↦ rw (e, held-insert le g ys) (omega arith)
  ]

  held-sort : (le : Group → Group → Bool) (gs : List Group) → held p (sort le gs) ≡ held p gs
  unfolding sort
  held-sort le [] = refl
  held-sort le (g ∷ gs) = held-insert le g (sort le gs) ∙ rw (held-sort le gs) refl

  held-push : (d : Device) (gs : List Group) → held p (push d gs) ≡ one_if (p d) + held p gs
  unfolding push
  held-push d [] = omega arith
  held-push d (g ∷ gs) = elim (Bool-cases (text_eq g.key (key_of d))) [
    | inl e ↦ rw (e, count-append g.devices (d ∷ [])) (omega arith)
    | inr e ↦ rw (e, held-push d gs) (omega arith)
  ]

  held-collect :
      (ds : List Device) (gs : List Group)
      → held p (collect ds gs) ≡ held p gs + count (λ d. upgradable d && p d) ds
  unfolding collect
  held-collect [] gs = omega arith
  held-collect (d ∷ ds) gs = elim (Bool-cases (upgradable d)) [
    | inl e ↦ rw (e, held-collect ds (push d gs), held-push d gs) (omega arith)
    | inr e ↦ rw (e, held-collect ds gs) (omega arith)
  ]

  held-sort_each :
      (locale_le : Text → Text → Bool) (gs : List Group)
      → held p (sort_each locale_le gs) ≡ held p gs
  held-sort_each locale_le [] = refl
  held-sort_each locale_le (g ∷ gs) =
      rw (count-sort (device_le locale_le) g.devices, held-sort_each locale_le gs) refl

  held-groups_of :
      (locale_le : Text → Text → Bool) (ds : List Device)
      → held p (groups_of locale_le ds) ≡ count (λ d. upgradable d && p d) ds
  unfolding groups_of
  held-groups_of locale_le ds =
      held-sort (group_le locale_le) (sort_each locale_le (collect ds []))
      ∙ held-sort_each locale_le (collect ds [])
      ∙ held-collect ds []
      ∙ zero_add _

  tally-append : (xs ys : List (Device × Group)) → tally p (xs ++ ys) ≡ tally p xs + tally p ys
  tally-append [] ys = omega arith
  tally-append ((d, g) ∷ xs) ys = omega (arith, tally-append xs ys)

  tally-plan_group :
      (selected : List Text) (g : Group) (ds : List Device)
      → tally p (plan_group selected g ds) ≡ count (λ d. has text_eq d.id selected && p d) ds
  unfolding plan_group
  tally-plan_group selected g [] = refl
  tally-plan_group selected g (d ∷ ds) = elim (Bool-cases (has text_eq d.id selected)) [
    | inl e ↦ rw (e, tally-plan_group selected g ds) refl
    | inr e ↦ rw (e, tally-plan_group selected g ds) (omega arith)
  ]

module _ (selected : List Text) where
  tally-plan :
      (p : Device → Bool) (gs : List Group)
      → tally p (plan selected gs) ≡ held (λ d. has text_eq d.id selected && p d) gs
  unfolding plan
  tally-plan p [] = refl
  tally-plan p (g ∷ gs) =
      tally-append p (plan_group selected g g.devices) (plan selected gs)
      ∙ rw (tally-plan_group p selected g g.devices, tally-plan p gs) refl

  -- A step of the plan: the device is selected, and offered in this group.
  abbrev pub IsApproved : Device × Group → Type 0
  IsApproved (d, g) = (has text_eq d.id selected ≡ true) × IsOwn g d

  plan_group-IsApproved :
      (g : Group) (ds : List Device) → All (IsOwn g) ds → All IsApproved (plan_group selected g ds)
  unfolding plan_group
  plan_group-IsApproved g [] h = tt
  plan_group-IsApproved g (d ∷ ds) h = elim (Bool-cases (has text_eq d.id selected)) [
    | inl e ↦ rw e ((e, h.0), plan_group-IsApproved g ds h.1)
    | inr e ↦ rw e (plan_group-IsApproved g ds h.1)
  ]

  plan-All : (gs : List Group) → All IsGood gs → All IsApproved (plan selected gs)
  unfolding plan
  plan-All [] h = tt
  plan-All (g ∷ gs) h =
      All-append IsApproved (plan_group selected g g.devices) (plan selected gs)
        (plan_group-IsApproved g g.devices h.0.own) (plan-All gs h.1)

module _ (locale_le : Text → Text → Bool) where
  sort_each-IsGood : (gs : List Group) → All IsGood gs → All IsGood (sort_each locale_le gs)
  sort_each-IsGood [] h = tt
  sort_each-IsGood (g ∷ gs) h = (
    with_devices-IsGood g (sort (device_le locale_le) g.devices) h.0
        (sort-All (device_le locale_le) (IsOwn g) g.devices h.0.own),
    sort_each-IsGood gs h.1,
  )

  groups_of-IsGood : (ds : List Device) → All IsCleanDevice ds → All IsGood (groups_of locale_le ds)
  unfolding groups_of
  groups_of-IsGood ds clean =
      sort-All (group_le locale_le) IsGood (sort_each locale_le (collect ds []))
        (sort_each-IsGood (collect ds []) (collect-IsGood ds [] clean tt))

  -- The plan of a bulk upgrade has exactly the devices that are selected and that an upgrade is offered
  -- for, each as often as it is listed, and each in a group of its own model and its own two
  -- versions. The models and the present versions have no NUL character in them.
  pub plan-IsApproved :
      (devices : List Device) (selected : List Text) (p : Device → Bool)
      → All IsCleanDevice devices
      → let steps = plan selected (groups_of locale_le devices) in
        All (IsApproved selected) steps
        × (tally p steps ≡ count (λ d. upgradable d && (has text_eq d.id selected && p d)) devices)
  plan-IsApproved devices selected p clean = (
    plan-All selected (groups_of locale_le devices) (groups_of-IsGood devices clean),
    tally-plan selected p (groups_of locale_le devices)
        ∙ held-groups_of (λ d. has text_eq d.id selected && p d) locale_le devices,
  )
