-- ===== src/Table/Tests.antt =====
-- A small table, filtered and sorted.
use netfleet.Common.{
  IsOrder, insert, sort, reversed, ◌≡◌, refl, none, some, List, [], ◌∷◌, Bool, Text, codes, text_eq,
  includes, starts_with, is_space, trim, trim_start, trim_end, leb, length, arith, if◌then◌else◌,
}
use netfleet.Table.{SortState, Accessors, on_filter, on_sort, matches, filter_rows, row_le, visible}
use netfleet.Table.View.{Keeps, Fits, IsArranged, visible-IsArranged}

-- Rows are texts; one column is sorted by length.
abbrev columns : Accessors Text
columns = record {
  text = λ id. if text_eq id (codes "name") then some (λ r. r) else none;
  number = λ id. if text_eq id (codes "size") then some (λ r. length r) else none;
}

-- Texts in the order of their lengths.
abbrev by_length : Text → Text → Bool
by_length a b = leb (length a) (length b)

by_length-IsOrder : IsOrder by_length
by_length-IsOrder = record { total = λ a b h. ground arith; trans = λ a b c h k. ground arith }

abbrev rows : List Text
rows = codes "ccc" ∷ codes "ab" ∷ codes "b" ∷ codes "cb" ∷ []

abbrev filters : List (Text × Text)
filters = on_filter (codes "name") (codes " b") []

abbrev sizes : SortState
sizes = on_sort (codes "size") (record { by = none; dir = none })

runs : Unit {0}
unfolding text_eq includes starts_with is_space trim trim_start trim_end on_filter on_sort matches
    filter_rows insert sort reversed visible
runs = tt

shown :
    (visible (λ t. t) by_length columns filters sizes rows
      ≡ codes "b" ∷ codes "ab" ∷ codes "cb" ∷ [])
    × (visible (λ t. t) by_length columns filters (on_sort (codes "size") sizes) rows
        ≡ codes "cb" ∷ codes "ab" ∷ codes "b" ∷ [])
    × (on_sort (codes "size") (on_sort (codes "size") sizes) ≡ record { by = none; dir = none })
unfolding runs
shown = (refl, refl, refl)

visible-IsArranged_example :
    (out : List Text) × Keeps (Fits (λ t. t) by_length columns filters) rows out
    × IsArranged
        (row_le (λ t. t) by_length columns)
        sizes.by
        sizes.dir
        out
        (visible (λ t. t) by_length columns filters sizes rows)
visible-IsArranged_example =
    visible-IsArranged (λ t. t) by_length columns filters sizes rows by_length-IsOrder
