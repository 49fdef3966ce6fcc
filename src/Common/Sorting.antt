-- ===== src/Common/Sorting.antt =====
-- The sort of ECMAScript: the same rows, in order, and rows that tie in the order they had.
use mathlib.Core.Path.{◌≡◌, refl, ◌∙◌}
use mathlib.Core.Logic.{inl, inr}
use mathlib.Core.Bool.{Bool, true, false, ◌&&◌}
use mathlib.Core.List.{List, [], ◌∷◌, ◌++◌, Perm, perm_middle, append-nil}
use mathlib.Core.List.Perm
use native.Mathlib.Omega.{arith}
use netfleet.Common.Tests.{if◌then◌else◌, Bool-cases}
use netfleet.Common.Lists.{All, All-append}

-- `Array.prototype.sort`, which is stable.
module _ {A : Type 0} (le : A → A → Bool) where
  unfoldable pub insert : A → List A → List A
  insert x [] = x ∷ []
  insert x (y ∷ ys) = let rest = insert x ys in if le x y then x ∷ y ∷ ys else y ∷ rest

  unfoldable pub sort : List A → List A
  unfolding insert
  sort [] = []
  sort (x ∷ xs) = insert x (sort xs)

unfoldable pub reversed : {A : Type 0} → List A → List A
reversed [] = []
reversed (x ∷ xs) = reversed xs ++ x ∷ []

module _ {A : Type 0} (le : A → A → Bool) where
  -- Every row is before all later ones.
  abbrev pub IsOrdered : List A → Type 0
  IsOrdered [] = Unit
  IsOrdered (x ∷ xs) = All (λ y. le x y ≡ true) xs × IsOrdered xs

  -- The rows that tie with one.
  abbrev pub ties : A → List A → List A
  ties a [] = []
  ties a (x ∷ xs) = let rest = ties a xs in if le a x && le x a then x ∷ rest else rest

-- An order that two rows always have, one way or the other.
pub record IsOrder {A : Type 0} (le : A → A → Bool) : Type 0 where
  pub total : (a b : A) → le a b ≡ false → le b a ≡ true
  pub trans : (a b c : A) → le a b ≡ true → le b c ≡ true → le a c ≡ true

module _ {A : Type 0} (le : A → A → Bool) where
  insert-Perm : (x : A) (xs : List A) → Perm (insert le x xs) (x ∷ xs)
  unfolding insert
  insert-Perm x [] = Perm.rfl
  insert-Perm x (y ∷ ys) = elim (Bool-cases (le x y)) [
    | inl e ↦ rw e Perm.rfl
    | inr e ↦ rw e (Perm.trans (Perm.cons y (insert-Perm x ys)) (Perm.swap x y ys))
  ]

  pub sort-Perm : (xs : List A) → Perm (sort le xs) xs
  unfolding sort
  sort-Perm [] = Perm.rfl
  sort-Perm (x ∷ xs) = Perm.trans (insert-Perm x (sort le xs)) (Perm.cons x (sort-Perm xs))

  pub insert-All : (P : A → Type 0) (x : A) (xs : List A) → P x → All P xs → All P (insert le x xs)
  unfolding insert
  insert-All P x [] h hs = (h, tt)
  insert-All P x (y ∷ ys) h hs = elim (Bool-cases (le x y)) [
    | inl e ↦ rw e (h, hs)
    | inr e ↦ rw e (hs.0, insert-All P x ys h hs.1)
  ]

  pub sort-All : (P : A → Type 0) (xs : List A) → All P xs → All P (sort le xs)
  unfolding sort
  sort-All P [] h = tt
  sort-All P (x ∷ xs) h = insert-All P x (sort le xs) h.0 (sort-All P xs h.1)

module _ {A : Type 0} (le : A → A → Bool) (order : IsOrder le) where
  below :
      (x y : A) (ys : List A)
      → le x y ≡ true
      → All (λ z. le y z ≡ true) ys
      → All (λ z. le x z ≡ true) ys
  below x y [] e hs = tt
  below x y (z ∷ ys) e hs = (order.trans x y z e hs.0, below x y ys e hs.1)

  insert-IsOrdered : (x : A) (xs : List A) → IsOrdered le xs → IsOrdered le (insert le x xs)
  unfolding insert
  insert-IsOrdered x [] s = (tt, tt)
  insert-IsOrdered x (y ∷ ys) s = elim (Bool-cases (le x y)) [
    | inl e ↦ rw e ((e, below x y ys e s.0), s)
    | inr e ↦
        rw e (
          insert-All le (λ z. le y z ≡ true) x ys (order.total x y e) s.0,
          insert-IsOrdered x ys s.1,
        )
  ]

  pub sort-IsOrdered : (xs : List A) → IsOrdered le (sort le xs)
  unfolding sort
  sort-IsOrdered [] = tt
  sort-IsOrdered (x ∷ xs) = insert-IsOrdered x (sort le xs) (sort-IsOrdered xs)

  -- Two rows that tie with a third one are in order.
  tied_le : (a x y : A) → (le a x && le x a) ≡ true → (le a y && le y a) ≡ true → le x y ≡ true
  tied_le a x y h k = order.trans x a y (ground arith) (ground arith)

  ties-insert : (a x : A) (ys : List A) → ties le a (insert le x ys) ≡ ties le a (x ∷ ys)
  unfolding insert
  ties-insert a x [] = refl
  ties-insert a x (y ∷ ys) = elim (Bool-cases (le x y)) [
    | inl e ↦ rw e refl
    | inr e ↦ elim (Bool-cases (le a y && le y a)) [
      | inl tied ↦
          let apart : (le a x && le x a) ≡ false = elim (Bool-cases (le a x && le x a)) [
            | inl h ↦ absurd (ground (arith, tied_le a x y h tied, e))
            | inr h ↦ h
          ] in
          rw (e, tied, ties-insert a x ys, apart) refl
      | inr apart ↦ rw (e, apart, ties-insert a x ys) refl
    ]
  ]

  pub ties-sort : (a : A) (xs : List A) → ties le a (sort le xs) ≡ ties le a xs
  unfolding sort
  ties-sort a [] = refl
  ties-sort a (x ∷ xs) = ties-insert a x (sort le xs) ∙ rw (ties-sort a xs) refl

module _ {A : Type 0} where
  pub reversed-Perm : (xs : List A) → Perm (reversed xs) xs
  unfolding reversed
  reversed-Perm [] = Perm.rfl
  reversed-Perm (x ∷ xs) =
      Perm.trans (perm_middle (reversed xs) []) (rw append-nil (Perm.cons x (reversed-Perm xs)))

  module _ (le : A → A → Bool) where
    ties-append : (a : A) (xs ys : List A) → ties le a (xs ++ ys) ≡ ties le a xs ++ ties le a ys
    ties-append a [] ys = refl
    ties-append a (x ∷ xs) ys = elim (Bool-cases (le a x && le x a)) [
      | inl e ↦ rw (e, ties-append a xs ys) refl
      | inr e ↦ rw (e, ties-append a xs ys) refl
    ]

    pub ties-reversed : (a : A) (xs : List A) → ties le a (reversed xs) ≡ reversed (ties le a xs)
    unfolding reversed
    ties-reversed a [] = refl
    ties-reversed a (x ∷ xs) = elim (Bool-cases (le a x && le x a)) [
      | inl e ↦ ties-append a (reversed xs) (x ∷ []) ∙ rw (e, ties-reversed a xs) refl
      | inr e ↦ ties-append a (reversed xs) (x ∷ []) ∙ rw (e, ties-reversed a xs) (append-nil _)
    ]

    reversed-All : (P : A → Type 0) (xs : List A) → All P xs → All P (reversed xs)
    unfolding reversed
    reversed-All P [] h = tt
    reversed-All P (x ∷ xs) h =
        All-append P (reversed xs) (x ∷ []) (reversed-All P xs h.1) (h.0, tt)

    append-IsOrdered :
        (xs : List A) (x : A)
        → IsOrdered (λ a b. le b a) xs
        → All (λ y. le x y ≡ true) xs
        → IsOrdered (λ a b. le b a) (xs ++ x ∷ [])
    append-IsOrdered [] x s h = (tt, tt)
    append-IsOrdered (y ∷ xs) x s h =
        (All-append (λ z. le z y ≡ true) xs (x ∷ []) s.0 (h.0, tt), append-IsOrdered xs x s.1 h.1)

    pub reversed-IsOrdered :
        (xs : List A) → IsOrdered le xs → IsOrdered (λ a b. le b a) (reversed xs)
    unfolding reversed
    reversed-IsOrdered [] s = tt
    reversed-IsOrdered (x ∷ xs) s =
        append-IsOrdered (reversed xs) x (reversed-IsOrdered xs s.1)
          (reversed-All (λ y. le x y ≡ true) xs s.0)
