-- ===== src/Table/View.antt =====
-- What a table owes to its user, and that it shows it.
use netfleet.Common.{
  IsOrder, IsOrdered, ties, sort-Perm, sort-IsOrdered, ties-sort, reversed-Perm, reversed-IsOrdered,
  ties-reversed, sort, reversed, ℕ, ◌≡◌, refl, ◌∙◌, ap, Option, none, some, List, [], ◌∷◌, Bool,
  true, false, Text, leb, arith, ◌↔◌, ◌⊎◌, inl, inr, All, Bool-cases, trim, includes, ◌&&◌,
}
use mathlib.Core.List.{Perm}
use mathlib.Core.List.Perm
use netfleet.Table.{
  SortDir, asc, desc, SortState, Accessors, filter_rows, le_by, row_le, sorted_by, visible, fits,
  matches,
}

-- `out` is what is left of `rows`, in order, when exactly those without the property are left out.
pub data Keeps {A : Type 0} (P : A → Type 0) : List A → List A → Type 0 where
  nothing : Keeps P [] []
  keep : {r : A} {rows out : List A} → P r → Keeps P rows out → Keeps P (r ∷ rows) (r ∷ out)
  drop : {r : A} {rows out : List A} → ¬ (P r) → Keeps P rows out → Keeps P (r ∷ rows) out

and_true : (a b : Bool) → (a && b) ≡ true → (a ≡ true) × (b ≡ true)
and_true true b h = (refl, h)
and_true false b h = cc

true_not_false : {b : Bool} → b ≡ true → ¬ (b ≡ false)
true_not_false p q = cc

module _ {A : Type 0} (le : A → A → Bool) where
  -- The rows that there were, in order, where those that tie keep the order that they had.
  pub record IsAscending (rows out : List A) : Type 0 where
    pub same_rows : Perm out rows
    pub ordered : IsOrdered le out
    pub kept : (a : A) → ties le a out ≡ ties le a rows

  -- The same backwards.
  pub record IsDescending (rows out : List A) : Type 0 where
    pub same_rows : Perm out rows
    pub ordered : IsOrdered (λ a b. le b a) out
    pub turned : (a : A) → ties le a out ≡ reversed (ties le a rows)

module _ {A : Type 0} (le : Text → A → A → Bool) where
  abbrev pub IsArranged : Option Text → Option SortDir → List A → List A → Type 0
  IsArranged none dir rows out = out ≡ rows
  IsArranged (some []) dir rows out = out ≡ rows
  IsArranged (some (c ∷ id)) none rows out = out ≡ rows
  IsArranged (some (c ∷ id)) (some asc) rows out = IsAscending (le (c ∷ id)) rows out
  IsArranged (some (c ∷ id)) (some desc) rows out = IsDescending (le (c ∷ id)) rows out

leb_total : (a b : ℕ) → leb a b ≡ false → leb b a ≡ true
leb_total a b h = ground arith

leb_trans : (a b c : ℕ) → leb a b ≡ true → leb b c ≡ true → leb a c ≡ true
leb_trans a b c h k = ground arith

module _ {A : Type 0} (lower : Text → Text) (locale_le : Text → Text → Bool)
    (accessors : Accessors A) where
  le_by-IsOrder :
      (number : Option (A → ℕ)) (text : Option (A → Text))
      → IsOrder locale_le
      → IsOrder (le_by lower locale_le accessors number text)
  le_by-IsOrder (some f) text o = record {
    total = λ a b. leb_total (f a) (f b);
    trans = λ a b c. leb_trans (f a) (f b) (f c);
  }
  le_by-IsOrder none (some f) o = record {
    total = λ a b. o.total (f a) (f b);
    trans = λ a b c. o.trans (f a) (f b) (f c);
  }
  le_by-IsOrder none none o = record { total = λ a b h. refl; trans = λ a b c h k. refl }

  row_le-IsOrder : (id : Text) → IsOrder locale_le → IsOrder (row_le lower locale_le accessors id)
  row_le-IsOrder id o = le_by-IsOrder (accessors.number id) (accessors.text id) o

  sorted_by-IsArranged :
      (by : Option Text) (dir : Option SortDir) (rows : List A)
      → IsOrder locale_le
      → IsArranged
          (row_le lower locale_le accessors)
          by
          dir
          rows
          (sorted_by lower locale_le accessors by dir rows)
  sorted_by-IsArranged none dir rows o = refl
  sorted_by-IsArranged (some []) dir rows o = refl
  sorted_by-IsArranged (some (c ∷ id)) none rows o = refl
  sorted_by-IsArranged (some (c ∷ id)) (some asc) rows o =
      let le = row_le lower locale_le accessors (c ∷ id) in
      let le_order = row_le-IsOrder (c ∷ id) o in
      record {
        same_rows = sort-Perm le rows;
        ordered = sort-IsOrdered le le_order rows;
        kept = λ a. ties-sort le le_order a rows;
      }
  sorted_by-IsArranged (some (c ∷ id)) (some desc) rows o =
      let le = row_le lower locale_le accessors (c ∷ id) in
      let le_order = row_le-IsOrder (c ∷ id) o in
      record {
        same_rows = Perm.trans (reversed-Perm (sort le rows)) (sort-Perm le rows);
        ordered = reversed-IsOrdered le (sort le rows) (sort-IsOrdered le le_order rows);
        turned =
            λ a. ties-reversed le a (sort le rows) ∙ ap reversed (ties-sort le le_order a rows);
      }

  -- A row fits a filter that is blank, that is of a column without a text, or whose trimmed text it
  -- has in that column, whatever the case of the letters.
  abbrev pub FitsOne : Text × Text → A → Type 0
  FitsOne (id, q) r =
      (lower (trim q) ≡ [])
      ⊎ (accessors.text id ≡ none)
      ⊎ ((f : A → Text) × (accessors.text id ≡ some f)
          × (includes (lower (f r)) (lower (trim q)) ≡ true))

  abbrev pub Fits : List (Text × Text) → A → Type 0
  Fits filters r = All (λ e. FitsOne e r) filters

  fits-FitsOne :
      (id q needle : Text) (acc : Option (A → Text)) (r : A)
      → accessors.text id ≡ acc
      → lower (trim q) ≡ needle
      → (fits lower locale_le accessors needle acc r ≡ true) ↔ FitsOne (id, q) r
  fits-FitsOne id q [] acc r shown lowered = (λ h. inl lowered, λ h. refl)
  fits-FitsOne id q (c ∷ t) none r shown lowered = (λ h. inr (inl shown), λ h. refl)
  fits-FitsOne id q (c ∷ t) (some f) r shown lowered =
      (λ h. inr (inr (f, shown, rw lowered h)), back)
    where
      back : FitsOne (id, q) r → includes (lower (f r)) (c ∷ t) ≡ true
      back (inl e) = cc
      back (inr (inl e)) = cc
      back (inr (inr (g, e, h))) = cc

  matches-Fits :
      (filters : List (Text × Text)) (r : A)
      → (matches lower locale_le accessors filters r ≡ true) ↔ Fits filters r
  unfolding matches
  matches-Fits [] r = (λ h. tt, λ h. refl)
  matches-Fits ((id, q) ∷ filters) r =
      let one = fits-FitsOne id q (lower (trim q)) (accessors.text id) r refl refl in
      let rest = matches-Fits filters r in
      (
        λ h. let (a, b) = and_true _ _ h in (one.0 a, rest.0 b),
        λ h. rw (one.1 h.0, rest.1 h.1) refl,
      )

  filter_rows-Keeps :
      (filters : List (Text × Text)) (rows : List A)
      → Keeps (Fits filters) rows (filter_rows lower locale_le accessors filters rows)
  unfolding filter_rows
  filter_rows-Keeps filters [] = nothing
  filter_rows-Keeps filters (r ∷ rows) =
      let rest = filter_rows-Keeps filters rows in
      elim (Bool-cases (matches lower locale_le accessors filters r)) [
        | inl e ↦ rw e (keep ((matches-Fits filters r).0 e) rest)
        | inr e ↦ rw e (drop (λ h. true_not_false ((matches-Fits filters r).1 h) e) rest)
      ]

  -- A table shows exactly the rows that fit all its filters: as they came if no column is sorted by,
  -- and else in the order of the column, up or down, where rows that tie keep the order they came
  -- in, or are turned around. `localeCompare` orders any two texts, and transitively.
  pub visible-IsArranged :
      (filters : List (Text × Text)) (s : SortState) (rows : List A)
      → IsOrder locale_le
      → (out : List A) × Keeps (Fits filters) rows out
        × IsArranged
            (row_le lower locale_le accessors)
            s.by
            s.dir
            out
            (visible lower locale_le accessors filters s rows)
  unfolding visible
  visible-IsArranged filters s rows o =
      let out = filter_rows lower locale_le accessors filters rows in
      (out, filter_rows-Keeps filters rows, sorted_by-IsArranged s.by s.dir out o)
