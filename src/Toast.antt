-- ===== src/Toast.antt =====
-- The notification stack (frontend/src/components/toast.tsx): the list that ToastProvider keeps, the
-- rows that are mounted for it, and the timers of their effects, as a step relation.
pub mod Stack
pub mod Timers
pub mod Lingering
mod Tests
use netfleet.Common.{
  not, ◌&&◌, ◌||◌, ℕ, zero, suc, ◌+◌, ◌-◌, ◌≤◌, ◌≡◌, List, [], ◌∷◌, ◌++◌, map, Option, none, some,
  Bool, true, false, Text, ◌==◌, if◌then◌else◌, length, All,
}

pub data ToastVariant : Type 0 where
  success error info warning : ToastVariant

pub record ToastItem : Type 0 where
  pub id : ℕ
  pub variant : ToastVariant
  pub title : Text
  pub description : Option Text

-- A mounted ToastRow: its state `paused`, and when the timer of its effect fires, if one runs.
pub record ToastRow : Type 0 where
  pub id : ℕ
  pub paused : Bool
  pub fires_at : Option ℕ

-- `items` is the state after the updates so far, `rows` what is mounted, and `is_stale` says that an
-- update has still to be rendered.
pub record Toasts : Type 0 where
  pub items : List ToastItem
  pub last_id : ℕ
  pub rows : List ToastRow
  pub is_stale : Bool
  pub now : ℕ

abbrev pub max_visible : ℕ
max_visible = 3

abbrev pub timeout_ms : ℕ
timeout_ms = 3000

abbrev pub drop : ℕ → List ToastItem → List ToastItem
drop zero ts = ts
drop (suc n) [] = []
drop (suc n) (t ∷ ts) = drop n ts

-- `[...prev, item].slice(-MAX_VISIBLE)`
unfoldable pub append_last : ToastItem → List ToastItem → List ToastItem
append_last item prev = drop (suc (length prev) - max_visible) (prev ++ item ∷ [])

unfoldable pub push : ToastVariant → Text → Option Text → Toasts → Toasts
push variant title description s =
    let id = suc s.last_id in
    record s {
      last_id = id;
      items =
          append_last
            (record { id = id; variant = variant; title = title; description = description })
            s.items;
      is_stale = true;
    }

unfoldable pub without : ℕ → List ToastItem → List ToastItem
without id [] = []
without id (t ∷ ts) = let rest = without id ts in if t.id == id then rest else t ∷ rest

unfoldable pub remove : ℕ → Toasts → Toasts
remove id s = record s { items = without id s.items; is_stale = true }

-- The effect of a row: a timer, unless the row is paused.
unfoldable pub effect : ℕ → ℕ → Bool → ToastRow
effect now id paused = record {
  id = id;
  paused = paused;
  fires_at = if paused then none else some (now + timeout_ms);
}

-- The `paused` of the row with a key; a row that mounts begins with false.
unfoldable pub paused_of : ℕ → List ToastRow → Bool
paused_of id [] = false
paused_of id (r ∷ rows) = let rest = paused_of id rows in if r.id == id then r.paused else rest

-- A render makes a new `onClose` for every row, so that the effects of all rows run again.
unfoldable pub render : Toasts → Toasts
render s = record s {
  rows = map (λ (t : ToastItem). effect s.now t.id (paused_of t.id s.rows)) s.items;
  is_stale = false;
}

-- `setPaused` of one row: its effect runs again if the state changes.
unfoldable pub set_paused : ℕ → ℕ → Bool → List ToastRow → List ToastRow
set_paused now id p [] = []
set_paused now id p (r ∷ rows) =
    let rest = set_paused now id p rows in
    if r.id == id
    then (if p && not r.paused || r.paused && not p then effect now id p else r) ∷ rest
    else r ∷ rest

-- If the timer of a row runs, it does not fire before that time.
abbrev pub IsPending : ℕ → ToastRow → Type 0
IsPending time r = (t : ℕ) → r.fires_at ≡ some t → time ≤ t

pub data Step (s : Toasts) : Toasts → Type 0 where
  pushed : (v : ToastVariant) (title : Text) (d : Option Text) → Step s (push v title d s)
  -- The button of a row, pressed by mouse or key.
  closed :
      (before after : List ToastRow) (r : ToastRow)
      → s.rows ≡ before ++ r ∷ after
      → Step s (remove r.id s)
  hovered : (id : ℕ) (p : Bool) → Step s (record s { rows = set_paused s.now id p s.rows })
  -- The timer of a row fires.
  fired :
      (before after : List ToastRow) (r : ToastRow)
      → s.rows ≡ before ++ r ∷ after
      → r.fires_at ≡ some s.now
      → Step s (remove r.id (record s { rows = before ++ record r { fires_at = none } ∷ after }))
  rendered : s.is_stale ≡ true → Step s (render s)
  -- Time passes, up to the next timer at most.
  passed : (ms : ℕ) → All (IsPending (s.now + ms)) s.rows → Step s (record s { now = s.now + ms })

unfoldable pub empty : Toasts
empty = record { items = []; last_id = 0; rows = []; is_stale = false; now = 0 }

pub data Reach : Toasts → Type 0 where
  here : Reach empty
  next : {s t : Toasts} → Reach s → Step s t → Reach t
