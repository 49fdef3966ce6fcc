-- ===== src/Table.antt =====
-- The tables of the DHCP page (useTable in
-- frontend/src/app/dashboard/devices/[id]/dhcp/page.tsx): which rows they show, and in which order.
pub mod View
mod Tests
use netfleet.Common.{
  ℕ, Option, none, some, List, [], ◌∷◌, ◌++◌, Bool, true, false, ◌&&◌, Text, text_eq, includes,
  trim, leb, sort, reversed, if◌then◌else◌,
}

pub data SortDir : Type 0 where
  asc desc : SortDir

pub record SortState : Type 0 where
  pub by : Option Text
  pub dir : Option SortDir

-- What a table is made with: for each column the text of a row, and for some columns its number.
pub record Accessors (A : Type 0) : Type 0 where
  pub text : Text → Option (A → Text)
  pub number : Text → Option (A → ℕ)

-- `{ ...p, [id]: v }`, as a list of entries.
unfoldable pub on_filter : Text → Text → List (Text × Text) → List (Text × Text)
on_filter id v [] = (id, v) ∷ []
on_filter id v ((k, q) ∷ p) =
    let rest = on_filter id v p in if text_eq k id then (k, v) ∷ p else (k, q) ∷ rest

abbrev pub after_asc : Option SortDir → Text → SortState
after_asc (some asc) id = record { by = some id; dir = some desc }
after_asc d id = record { by = none; dir = none }

abbrev pub sorts_by : Option Text → Text → Bool
sorts_by none id = false
sorts_by (some t) id = text_eq t id

unfoldable pub on_sort : Text → SortState → SortState
on_sort id prev =
    if sorts_by prev.by id then after_asc prev.dir id else record { by = some id; dir = some asc }

-- `toLowerCase` and `a.localeCompare(b) <= 0` are parameters.
module _ {A : Type 0} (lower : Text → Text) (locale_le : Text → Text → Bool)
    (accessors : Accessors A) where
  abbrev pub fits : Text → Option (A → Text) → A → Bool
  fits [] acc r = true
  fits (c ∷ needle) none r = true
  fits (c ∷ needle) (some acc) r = includes (lower (acc r)) (c ∷ needle)

  unfoldable pub matches : List (Text × Text) → A → Bool
  unfolding trim includes
  matches [] r = true
  matches ((id, q) ∷ filters) r = fits (lower (trim q)) (accessors.text id) r && matches filters r

  unfoldable pub filter_rows : List (Text × Text) → List A → List A
  unfolding matches
  filter_rows filters [] = []
  filter_rows filters (r ∷ rows) =
      let rest = filter_rows filters rows in if matches filters r then r ∷ rest else rest

  -- The comparison that is not positive.
  abbrev pub le_by : Option (A → ℕ) → Option (A → Text) → A → A → Bool
  le_by (some numeric) text a b = leb (numeric a) (numeric b)
  le_by none (some text) a b = locale_le (text a) (text b)
  le_by none none a b = true

  abbrev pub row_le : Text → A → A → Bool
  row_le id = le_by (accessors.number id) (accessors.text id)

module _ {A : Type 0} (lower : Text → Text) (locale_le : Text → Text → Bool)
    (accessors : Accessors A) where
  abbrev pub sorted_by : Option Text → Option SortDir → List A → List A
  sorted_by none dir out = out
  sorted_by (some []) dir out = out
  sorted_by (some (c ∷ id)) none out = out
  sorted_by (some (c ∷ id)) (some asc) out = sort (row_le lower locale_le accessors (c ∷ id)) out
  sorted_by (some (c ∷ id)) (some desc) out =
      reversed (sort (row_le lower locale_le accessors (c ∷ id)) out)

  unfoldable pub visible : List (Text × Text) → SortState → List A → List A
  unfolding filter_rows sort reversed
  visible filters s rows = sorted_by s.by s.dir (filter_rows lower locale_le accessors filters rows)
