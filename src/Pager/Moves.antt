-- ===== src/Pager/Moves.antt =====
-- Where the pager's buttons and its form go.
use native.Mathlib.Nat.{
  mul-div_cancel, mul-mod_left, div-mul-le_self, le-div_iff_mul-le, div-add-mod', lt-div-mul-add,
}
use native.Mathlib.Decide.{dec_le}
use netfleet.Common.{ℕ, ◌+◌, ◌-◌, ◌*◌, ◌/◌, ◌%◌, ◌≤◌, ◌<◌, ◌≡◌, ◌↔◌, some, true, min, max, arith}
use netfleet.Pager.{
  Props, pages, current, go, at_first, at_last, from, to, Button, first, previous, next, last,
  number, press,
}

pages_pos : (p : Props) → 1 ≤ pages p
unfolding pages
pages_pos p = omega arith

-- The page that `go` lands on.
abbrev pub clamp : Props → ℕ → ℕ
clamp p page = min (max page 1) (pages p)

current-go :
    (p : Props) (page : ℕ) → 0 < p.limit → current (record p { offset = go p page }) ≡ clamp p page
unfolding current go pages
current-go p page h = rw (mul-div_cancel (clamp p page - 1) h) (unfold pages in omega arith)

below_total : (k q l t : ℕ) → k + 1 ≤ q → q * l ≤ t + l - 1 → 0 < l → 0 < t → k * l < t
below_total k q l t h g l_pos t_pos = grind arith

go-lt-total : (p : Props) (page : ℕ) → 0 < p.limit → 0 < p.total → go p page < p.total
unfolding go pages
go-lt-total p page h t =
    let q = (p.total + p.limit - 1) / p.limit in
    let some_page : 1 ≤ q = (le-div_iff_mul-le h).1 (omega arith) in
    below_total (clamp p page - 1) q p.limit p.total (unfold pages in omega arith)
      (div-mul-le_self (p.total + p.limit - 1) p.limit) h t

go-aligned : (p : Props) (page : ℕ) → go p page % p.limit ≡ 0
unfolding go
go-aligned p page = mul-mod_left (clamp p page - 1) p.limit

current-le-pages : (p : Props) → current p ≤ pages p
unfolding current
current-le-pages p = omega arith

-- The page that a button names.
abbrev pub target : Props → Button → ℕ
target p first = 1
target p previous = current p - 1
target p next = current p + 1
target p last = pages p
target p (number n) = clamp p n

-- Every button that is not disabled asks for the offset at which the page that it names begins: a
-- multiple of the limit, below the total if there are rows, at which that page is the current one.
pub current-press :
    (p : Props) (b : Button) (o : ℕ)
    → 0 < p.limit
    → 0 < p.total
    → press p b ≡ some o
    → (o % p.limit ≡ 0) × (o < p.total) × (current (record p { offset = o }) ≡ target p b)
unfolding press at_first at_last
current-press p b o h t pressed = by_button b pressed
  where
    landed :
        (page : ℕ)
        → go p page ≡ o
        → (o % p.limit ≡ 0) × (o < p.total) × (current (record p { offset = o }) ≡ clamp p page)
    landed page e = rw (← e) (go-aligned p page, go-lt-total p page h t, current-go p page h)

    by_button :
        (b : Button)
        → press p b ≡ some o
        → (o % p.limit ≡ 0) × (o < p.total) × (current (record p { offset = o }) ≡ target p b)
    by_button first e = ground (arith, landed 1, pages_pos p)
    by_button previous e = ground (arith, landed (current p - 1), pages_pos p, current-le-pages p)
    by_button next e = ground (arith, landed (current p + 1), pages_pos p, current-le-pages p)
    by_button last e = ground (arith, landed (pages p), pages_pos p)
    by_button (number n) e = ground (arith, landed n)

-- The rows that the pager announces lie within the total, and are no more than the limit.
pub from-to :
    (p : Props)
    → 0 < p.limit
    → p.offset < p.total
    → (1 ≤ from p) × (from p ≤ to p) × (to p ≤ p.total) × (to p ≤ from p + p.limit - 1)
unfolding from to
from-to p h o = ground arith

times_le : (a b l : ℕ) → a ≤ b → a * l ≤ b * l
times_le a b l h = grind arith

reach :
    (k q l t : ℕ)
    → q * l ≤ t + l - 1
    → t + l - 1 < q * l + l
    → 0 < l
    → (q ≤ k + 1 → t ≤ k * l + l) × (t ≤ k * l + l → q ≤ k + 1)
reach k q l t low high pos = (
  λ h. omega (arith, times_le q (k + 1) l h),
  λ h. elim (dec_le q (k + 1)) [
    | yes g ↦ g
    | no g ↦ absurd (omega (arith, times_le (k + 2) q l (omega arith)))
  ],
)

-- At an offset where a page begins, "next" is disabled exactly if the rows shown reach the total.
pub at_last-to :
    (p : Props)
    → 0 < p.limit
    → p.offset < p.total
    → p.offset % p.limit ≡ 0
    → (at_last p ≡ true) ↔ (to p ≡ p.total)
unfolding at_last to current pages
at_last-to p h o aligned =
    let whole = div-add-mod' p.offset p.limit in
    let both =
      reach (p.offset / p.limit) ((p.total + p.limit - 1) / p.limit) p.limit p.total
        (div-mul-le_self (p.total + p.limit - 1) p.limit) (lt-div-mul-add h) h in
    (λ e. ground (arith, both.0), λ e. ground (arith, both.1))
