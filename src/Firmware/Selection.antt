-- ===== src/Firmware/Selection.antt =====
-- What the selection has after a toggle.
use netfleet.Common.{
  ◌≡◌, refl, ◌∙◌, List, [], ◌∷◌, map, Bool, true, false, not, ◌&&◌, ◌||◌, Text, text_eq,
  text_eq_iff, has, add, delete, has-add, has-delete, if◌then◌else◌, all, Bool-cases, inl, inr,
}
use netfleet.Firmware.{Device, toggle_all, toggle_group, toggle_device}

-- The two shapes of an answer that depends on whether an id is asked for.
and_if : (a c : Bool) → (not a && c) ≡ (if a then false else c)
and_if true c = refl
and_if false c = refl

or_if : (a c : Bool) → (a || c) ≡ (if a then true else c)
or_if true c = refl
or_if false c = refl

abbrev pub ids : List Device → List Text
ids devices = map (λ (d : Device). d.id) devices

toggle_all-delete :
    (x : Text) (devices : List Device) (s : List Text)
    → has text_eq x (toggle_all true devices s)
      ≡ (not (has text_eq x (ids devices)) && has text_eq x s)
unfolding toggle_all has
toggle_all-delete x [] s = refl
toggle_all-delete x (d ∷ devices) s =
    toggle_all-delete x devices (delete text_eq d.id s)
    ∙ rw (has-delete text_eq text_eq_iff x d.id s) (regroup (text_eq d.id x) _ _)
  where
    regroup : (a b c : Bool) → (not b && (not a && c)) ≡ (not (a || b) && c)
    regroup true true c = refl
    regroup true false c = refl
    regroup false b c = refl

toggle_all-add :
    (x : Text) (devices : List Device) (s : List Text)
    → has text_eq x (toggle_all false devices s) ≡ (has text_eq x (ids devices) || has text_eq x s)
unfolding toggle_all has
toggle_all-add x [] s = refl
toggle_all-add x (d ∷ devices) s =
    toggle_all-add x devices (add text_eq d.id s)
    ∙ rw (has-add text_eq text_eq_iff x d.id s) (regroup (text_eq d.id x) _ _)
  where
    regroup : (a b c : Bool) → (b || (a || c)) ≡ ((a || b) || c)
    regroup true true c = refl
    regroup true false c = refl
    regroup false b c = refl

-- Toggling a group selects all its devices, or none of them if all were selected, and leaves every
-- other device as it was.
pub has-toggle_group :
    (x : Text) (devices : List Device) (s : List Text)
    → has text_eq x (toggle_group devices s) ≡ (
        if has text_eq x (ids devices)
        then not (all (λ (d : Device). has text_eq d.id s) devices)
        else has text_eq x s)
unfolding toggle_group
has-toggle_group x devices s =
    elim (Bool-cases (all (λ (d : Device). has text_eq d.id s) devices)) [
      | inl every ↦
          rw every
            (toggle_all-delete x devices s ∙ and_if (has text_eq x (ids devices)) (has text_eq x s))
      | inr some_missing ↦
          rw some_missing
            (toggle_all-add x devices s ∙ or_if (has text_eq x (ids devices)) (has text_eq x s))
    ]

-- Toggling a device selects it if it was not selected, deselects it if it was, and leaves every
-- other one as it was.
pub has-toggle_device :
    (x id : Text) (s : List Text)
    → has text_eq x (toggle_device id s)
      ≡ (if text_eq id x then not (has text_eq id s) else has text_eq x s)
unfolding toggle_device
has-toggle_device x id s = elim (Bool-cases (has text_eq id s)) [
  | inl there ↦
      rw there (has-delete text_eq text_eq_iff x id s ∙ and_if (text_eq id x) (has text_eq x s))
  | inr absent ↦
      rw absent (has-add text_eq text_eq_iff x id s ∙ or_if (text_eq id x) (has text_eq x s))
]
