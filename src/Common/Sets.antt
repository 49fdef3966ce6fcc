-- ===== src/Common/Sets.antt =====
-- Sets as lists in the order of insertion, for a test of equality: JavaScript's Set.
use mathlib.Core.Path.{◌≡◌, refl, sym, ap, ◌∙◌}
use mathlib.Core.Logic.{◌↔◌, inl, inr}
use mathlib.Core.Bool.{Bool, true, false, not, ◌&&◌, ◌||◌}
use mathlib.Core.List.{List, [], ◌∷◌, ◌++◌}
use netfleet.Common.Tests.{if◌then◌else◌, Bool-cases}

and_false : (a : Bool) → (a && false) ≡ false
and_false true = refl
and_false false = refl

absorb : (a c : Bool) → (not a && c) ≡ (not a && (a || c))
absorb true c = refl
absorb false c = refl

module _ {A : Type 0} (same : A → A → Bool) where
  -- `s.has(x)`
  unfoldable pub has : A → List A → Bool
  has x [] = false
  has x (y ∷ s) = same y x || has x s

  -- `s.add(x)`
  unfoldable pub add : A → List A → List A
  add x s = if has x s then s else s ++ x ∷ []

  -- `s.delete(x)`
  unfoldable pub delete : A → List A → List A
  delete x [] = []
  delete x (y ∷ s) = let rest = delete x s in if same y x then rest else y ∷ rest

module _ {A : Type 0} (same : A → A → Bool)
    (same_iff : (x y : A) → (same x y ≡ true) ↔ (x ≡ y)) where
  pub has-append : (x y : A) (s : List A) → has same x (s ++ y ∷ []) ≡ (same y x || has same x s)
  unfolding has
  has-append x y [] = refl
  has-append x y (i ∷ s) = rw (has-append x y s) (swap (same i x) (same y x) (has same x s))
    where
      swap : (a b c : Bool) → (a || (b || c)) ≡ (b || (a || c))
      swap true true c = refl
      swap true false c = refl
      swap false b c = refl

  -- An id that is there is the one that is asked for, if they are equal.
  pub has-same :
      (x y : A) (s : List A) → has same y s ≡ true → same y x ≡ true → has same x s ≡ true
  has-same x y s h e = rw ((same_iff y x).0 e) at h

  pub has-add : (x y : A) (s : List A) → has same x (add same y s) ≡ (same y x || has same x s)
  unfolding add
  has-add x y s = elim (Bool-cases (has same y s)) [
    | inl there ↦ elim (Bool-cases (same y x)) [
      | inl alike ↦ rw (there, alike) (has-same x y s there alike)
      | inr differs ↦ rw (there, differs) refl
    ]
    | inr absent ↦ rw absent (has-append x y s)
  ]

  not_asked : (x y i : A) → same i y ≡ false → same y x ≡ true → same i x ≡ false
  not_asked x y i differs asked = rw ((same_iff y x).0 asked) at differs

  pub has-delete :
      (x y : A) (s : List A) → has same x (delete same y s) ≡ (not (same y x) && has same x s)
  unfolding has delete
  has-delete x y [] = sym (and_false (not (same y x)))
  has-delete x y (i ∷ s) = elim (Bool-cases (same i y)) [
    | inl equal ↦
        let alike : same i x ≡ same y x = ap (λ j. same j x) ((same_iff i y).0 equal) in
        rw equal (has-delete x y s ∙ rw alike (absorb (same y x) (has same x s)))
    | inr differs ↦ elim (Bool-cases (same y x)) [
      | inl asked ↦ rw (differs, has-delete x y s, asked, not_asked x y i differs asked) refl
      | inr other ↦ rw (differs, has-delete x y s, other) refl
    ]
  ]

module _ {A : Type 0} (same : A → A → Bool) where
  abbrev pub Distinct : List A → Type 0
  Distinct [] = Unit
  Distinct (x ∷ s) = (has same x s ≡ false) × Distinct s
