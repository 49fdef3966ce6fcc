-- ===== src/Pager.antt =====
-- frontend/src/components/pager.tsx: the page numbers that the pager shows, and where its buttons go.
-- Offsets, limits, totals and pages are natural numbers below 2^53, which JavaScript's floats hold.
pub mod Window
pub mod Moves
mod Tests
use netfleet.Common.{
  ℕ, zero, suc, ◌+◌, ◌-◌, ◌*◌, ◌/◌, ◌%◌, min, max, Option, none, some, List, [], ◌∷◌, ◌++◌, map,
  Bool, true, false, not, ◌&&◌, Text, ltb, leb, ◌==◌, if◌then◌else◌, ◌≡◌, refl,
}

-- A JavaScript Set of numbers, in the order of insertion.
unfoldable pub contains : ℕ → List ℕ → Bool
contains x [] = false
contains x (y ∷ ys) = if x == y then true else contains x ys

unfoldable pub add : ℕ → List ℕ → List ℕ
unfolding contains
add x s = if contains x s then s else s ++ x ∷ []

-- `for (let p = current - radius; p <= current + radius; p++)`, by the rounds left. It begins at 0
-- where the source begins below: no p below 1 is kept.
add_near : ℕ → ℕ → ℕ → List ℕ → List ℕ
unfolding add
add_near zero p pages keep = keep
add_near (suc rounds) p pages keep =
    add_near rounds (p + 1) pages (if leb 1 p && leb p pages then add p keep else keep)

kept : ℕ → ℕ → ℕ → List ℕ
unfolding add_near
kept current pages radius =
    add_near (current + radius + 1 - (current - radius)) (current - radius) pages
      (add pages (add 1 []))

-- `.sort((a, b) => a - b)`
insert : ℕ → List ℕ → List ℕ
insert x [] = x ∷ []
insert x (y ∷ ys) = if leb x y then x ∷ y ∷ ys else y ∷ insert x ys

sort : List ℕ → List ℕ
unfolding insert
sort [] = []
sort (x ∷ xs) = insert x (sort xs)

-- What is pushed for `sorted[i]` after `sorted[i - 1]`: `none` is the gap.
fill : ℕ → ℕ → List (Option ℕ)
fill prev x =
    if x - prev == 2
    then some (x - 1) ∷ some x ∷ []
    else if ltb 2 (x - prev)
    then none ∷ some x ∷ []
    else some x ∷ []

emit : ℕ → List ℕ → List (Option ℕ)
unfolding fill
emit prev [] = []
emit prev (x ∷ xs) = fill prev x ++ emit x xs

emit_all : List ℕ → List (Option ℕ)
unfolding emit
emit_all [] = []
emit_all (x ∷ xs) = some x ∷ emit x xs

unfoldable pub page_window : ℕ → ℕ → ℕ → List (Option ℕ)
unfolding kept sort emit_all
page_window current pages radius = emit_all (sort (kept current pages radius))

-- The props of `Pager` that its state depends on.
pub record Props : Type 0 where
  pub offset : ℕ
  pub limit : ℕ
  pub total : ℕ

-- `Math.max(1, Math.ceil(total / limit))`, for a limit that is not 0.
unfoldable pub pages : Props → ℕ
pages p = max 1 ((p.total + p.limit - 1) / p.limit)

unfoldable pub current : Props → ℕ
unfolding pages
current p = min (p.offset / p.limit + 1) (pages p)

-- The offset that `go(page)` passes to `onOffset`.
unfoldable pub go : Props → ℕ → ℕ
unfolding pages
go p page = (min (max page 1) (pages p) - 1) * p.limit

unfoldable pub at_first : Props → Bool
unfolding current
at_first p = leb (current p) 1

unfoldable pub at_last : Props → Bool
unfolding current pages
at_last p = leb (pages p) (current p)

unfoldable pub from : Props → ℕ
from p = if p.total == 0 then 0 else p.offset + 1

unfoldable pub to : Props → ℕ
to p = min (p.offset + p.limit) p.total

-- The buttons, each with the offset that it asks for; a disabled one asks for nothing.
pub data Button : Type 0 where
  first previous next last : Button
  number : ℕ → Button

unfoldable pub press : Props → Button → Option ℕ
unfolding at_first at_last go
press p first = if at_first p then none else some (go p 1)
press p previous = if at_first p then none else some (go p (current p - 1))
press p next = if at_last p then none else some (go p (current p + 1))
press p last = if at_last p then none else some (go p (pages p))
press p (number n) = some (go p n)

-- `e.target.value.replace(/[^0-9]/g, "")`
unfoldable pub digits_only : Text → Text
digits_only [] = []
digits_only (c ∷ t) =
    let rest = digits_only t in if leb b'0' c && leb c b'9' then c ∷ rest else rest

parse_from : ℕ → Text → ℕ
parse_from n [] = n
parse_from n (c ∷ t) = parse_from (n * 10 + (c - b'0')) t

-- `Number.parseInt(draft, 10)` on digits; on none of them it is NaN.
unfoldable pub parse_int : Text → Option ℕ
unfolding parse_from
parse_int [] = none
parse_int (c ∷ t) = some (parse_from 0 (c ∷ t))

-- The form's `onSubmit`, with the draft as its `onChange` left it.
unfoldable pub submit : Props → Option Text → Option ℕ
unfolding parse_int go
submit p none = none
submit p (some draft) = elim (parse_int draft) [ none ↦ none | some n ↦ some (go p n) ]

page_window_tests :
    (page_window 5 10 1 ≡ some 1 ∷ none ∷ some 4 ∷ some 5 ∷ some 6 ∷ none ∷ some 10 ∷ [])
    × (page_window 3 10 1 ≡ some 1 ∷ some 2 ∷ some 3 ∷ some 4 ∷ none ∷ some 10 ∷ [])
    × (page_window 1 1 1 ≡ some 1 ∷ [])
unfolding page_window
page_window_tests = (refl, refl, refl)
