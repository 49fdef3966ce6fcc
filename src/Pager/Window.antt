-- ===== src/Pager/Window.antt =====
-- Which pages `pageWindow` shows.
use netfleet.Common.{
  ℕ, zero, suc, ◌+◌, ◌-◌, ◌≤◌, ◌<◌, ◌≡◌, refl, inl, inr, Option, none, some, List, [], ◌∷◌, ◌++◌,
  Bool, true, false, ◌&&◌, ◌||◌, ◌∙◌, ap, subst, arith, ltb, leb, ◌==◌, ==_iff, if◌then◌else◌,
  Bool-cases,
}
use netfleet.Pager.{contains, add, add_near, kept, insert, sort, fill, emit, emit_all, page_window}

-- Strictly rising, from above a number.
abbrev Rises : ℕ → List ℕ → Type 0
Rises a [] = Unit
Rises a (x ∷ xs) = (a < x) × Rises x xs

-- Distinct.
abbrev Distinct : List ℕ → Type 0
Distinct [] = Unit
Distinct (x ∷ xs) = (contains x xs ≡ false) × Distinct xs

contains-append :
    (a x : ℕ) (s : List ℕ) → contains a (s ++ x ∷ []) ≡ (if a == x then true else contains a s)
unfolding contains
contains-append a x [] = refl
contains-append a x (y ∷ ys) = ground (arith, contains-append a x ys)

contains-add :
    (a x : ℕ) (s : List ℕ) → contains a (add x s) ≡ (if a == x then true else contains a s)
unfolding add
contains-add a x s = ground (arith, contains-append a x s, ==_iff a x)

Distinct-append : (x : ℕ) (s : List ℕ) → contains x s ≡ false → Distinct s → Distinct (s ++ x ∷ [])
unfolding contains
Distinct-append x [] h d = (refl, tt)
Distinct-append x (y ∷ ys) h d =
    (ground (arith, contains-append y x ys, ==_iff x y), Distinct-append x ys (ground arith) d.1)

Distinct-add : (x : ℕ) (s : List ℕ) → Distinct s → Distinct (add x s)
unfolding add
Distinct-add x s d = elim (Bool-cases (contains x s)) [
  | inl e ↦ rw e d
  | inr e ↦ rw e (Distinct-append x s e d)
]

contains-insert :
    (a x : ℕ) (s : List ℕ) → contains a (insert x s) ≡ (if a == x then true else contains a s)
unfolding contains insert
contains-insert a x [] = refl
contains-insert a x (y ∷ ys) = ground (arith, contains-insert a x ys)

contains-sort : (a : ℕ) (s : List ℕ) → contains a (sort s) ≡ contains a s
unfolding contains sort
contains-sort a [] = refl
contains-sort a (x ∷ xs) = ground (arith, contains-insert a x (sort xs), contains-sort a xs)

insert-Rises :
    (a x : ℕ) (s : List ℕ) → a < x → contains x s ≡ false → Rises a s → Rises a (insert x s)
unfolding contains insert
insert-Rises a x [] h c r = (h, tt)
insert-Rises a x (y ∷ ys) h c r = ground (arith, insert-Rises y x ys, ==_iff x y)

sort-Rises :
    (a : ℕ) (s : List ℕ) → Distinct s → ((y : ℕ) → contains y s ≡ true → a < y) → Rises a (sort s)
unfolding contains sort
sort-Rises a [] d above = tt
sort-Rises a (x ∷ xs) d above =
    insert-Rises a x (sort xs) (above x (ground (arith, ==_iff x x))) (contains-sort x xs ∙ d.0)
      (sort-Rises a xs d.1 (λ y h. above y (ground arith)))

Rises-lt : (a b : ℕ) (s : List ℕ) → Rises a s → contains b s ≡ true → a < b
unfolding contains
Rises-lt a b [] r h = cc
Rises-lt a b (x ∷ xs) r h = ground (arith, Rises-lt x b xs, ==_iff b x)

-- The pages that the window is built around.
abbrev pub is_near : ℕ → ℕ → ℕ → ℕ → Bool
is_near current pages radius y =
    y == 1
    || y == pages
    || leb 1 y && leb y pages && leb current (y + radius) && leb y (current + radius)

contains-add_near :
    (rounds p pages y : ℕ) (s : List ℕ)
    → contains y (add_near rounds p pages s)
      ≡ (contains y s || leb p y && ltb y (p + rounds) && leb 1 y && leb y pages)
unfolding add_near
contains-add_near zero p pages y s = ground arith
contains-add_near (suc rounds) p pages y s =
    let s' = if leb 1 p && leb p pages then add p s else s in
    ground (arith, contains-add_near rounds (p + 1) pages y s', contains-add y p s, ==_iff y p)

contains-kept :
    (current pages radius y : ℕ)
    → contains y (kept current pages radius) ≡ is_near current pages radius y
unfolding kept contains
contains-kept current pages radius y = ground (
  arith,
  contains-add_near (current + radius + 1 - (current - radius)) (current - radius) pages y
      (add pages (add 1 [])),
  contains-add y pages (add 1 []),
  contains-add y 1 [],
)

Distinct-add_near :
    (rounds p pages : ℕ) (s : List ℕ) → Distinct s → Distinct (add_near rounds p pages s)
unfolding add_near
Distinct-add_near zero p pages s d = d
Distinct-add_near (suc rounds) p pages s d =
    Distinct-add_near rounds (p + 1) pages _ (ground (arith, Distinct-add p s d))

Distinct-kept : (current pages radius : ℕ) → Distinct (kept current pages radius)
unfolding kept
Distinct-kept current pages radius =
    Distinct-add_near (current + radius + 1 - (current - radius)) (current - radius) pages
      (add pages (add 1 [])) (Distinct-add pages (add 1 []) (Distinct-add 1 [] tt))

-- The window read from a page that was shown: a number is the next page, and a gap hides two pages
-- at least.
abbrev pub Walk : ℕ → List (Option ℕ) → ℕ → Type 0
Walk a [] z = a ≡ z
Walk a (some b ∷ out) z = (b ≡ suc a) × Walk b out z
Walk a (none ∷ some b ∷ out) z = (a + 3 ≤ b) × Walk b out z
Walk a (none ∷ []) z = ⊥
Walk a (none ∷ none ∷ out) z = ⊥

fill-Walk :
    (a x : ℕ) (out : List (Option ℕ)) (z : ℕ) → a < x → Walk x out z → Walk a (fill a x ++ out) z
unfolding fill
fill-Walk a x out z h w = elim (Bool-cases (x - a == 2)) [
  | inl e ↦ rw e (ground arith, (ground arith, w))
  | inr e ↦ rw e (elim (Bool-cases (ltb 2 (x - a))) [
    | inl g ↦ rw g (ground arith, w)
    | inr g ↦ rw g (ground arith, w)
  ])
]

last_from : ℕ → List ℕ → ℕ
last_from a [] = a
last_from a (x ∷ xs) = last_from x xs

emit-Walk : (a : ℕ) (s : List ℕ) → Rises a s → Walk a (emit a s) (last_from a s)
unfolding emit last_from
emit-Walk a [] r = refl
emit-Walk a (x ∷ xs) r = fill-Walk a x (emit x xs) (last_from x xs) r.0 (emit-Walk x xs r.1)

last_from-contains :
    (a z : ℕ) (s : List ℕ)
    → Rises a s
    → contains z s ≡ true
    → ((y : ℕ) → contains y s ≡ true → y ≤ z)
    → last_from a s ≡ z
unfolding contains last_from
last_from-contains a z [] r h below = cc
last_from-contains a z (x ∷ []) r h below = ground (arith, ==_iff z x)
last_from-contains a z (x ∷ y ∷ ys) r h below =
    last_from-contains x z (y ∷ ys) r.1 (ground (arith, ==_iff z x, ==_iff y y, below y))
      (λ u g. below u (ground arith))

-- Whether a page is shown.
abbrev pub shows : ℕ → List (Option ℕ) → Bool
shows y [] = false
shows y (none ∷ out) = shows y out
shows y (some x ∷ out) = y == x || shows y out

shows-append : (y : ℕ) (xs ys : List (Option ℕ)) → shows y (xs ++ ys) ≡ (shows y xs || shows y ys)
shows-append y [] ys = refl
shows-append y (none ∷ xs) ys = shows-append y xs ys
shows-append y (some x ∷ xs) ys = ground (arith, shows-append y xs ys)

shows-emit :
    (y a : ℕ) (s : List ℕ)
    → 1 ≤ y
    → Rises a s
    → shows y (emit a s) ≡ (contains y s || contains (y - 1) (a ∷ s) && contains (y + 1) s)
unfolding contains emit fill
shows-emit y a [] h r = ground arith
shows-emit y a (x ∷ xs) h r = ground (
  arith,
  shows-append y (fill a x) (emit x xs),
  shows-emit y x xs h r.1,
  Rises-lt x y xs r.1,
  Rises-lt x (y + 1) xs r.1,
  Rises-lt x (y - 1) xs r.1,
)

near_sound :
    (current pages radius y : ℕ)
    → 1 ≤ pages
    → is_near current pages radius y ≡ true
    → (0 < y) × (y ≤ pages)
near_sound current pages radius y h n = ground arith

module _ (current pages radius : ℕ) (positive : 1 ≤ pages) where
  sorted : List ℕ
  sorted = sort (kept current pages radius)

  contains-sorted : (y : ℕ) → contains y sorted ≡ is_near current pages radius y
  unfolding sorted
  contains-sorted y =
      contains-sort y (kept current pages radius) ∙ contains-kept current pages radius y

  sorted-Rises : Rises 0 sorted
  unfolding sorted
  sorted-Rises =
      sort-Rises 0 (kept current pages radius) (Distinct-kept current pages radius)
        λ y h. (near_sound current pages radius y positive (rw contains-kept at h)).0

  sorted_below : (y : ℕ) → contains y sorted ≡ true → y ≤ pages
  sorted_below y h = (near_sound current pages radius y positive (rw contains-sorted at h)).1

  emit_all-Walk :
      (s : List ℕ)
      → ((y : ℕ) → contains y s ≡ is_near current pages radius y)
      → Rises 0 s
      → last_from 0 s ≡ pages
      → (out : List (Option ℕ)) × (emit_all s ≡ some 1 ∷ out) × Walk 1 out pages
  unfolding contains emit_all last_from
  emit_all-Walk [] c r l = absurd (ground (arith, c 1))
  emit_all-Walk (x ∷ xs) c r l =
      let e : x ≡ 1 = ground (arith, c 1, Rises-lt x 1 xs r.1, ==_iff 1 x) in
      (
        emit x xs,
        ap (λ (a : ℕ). some a ∷ emit x xs) e,
        subst (λ a. Walk a (emit x xs) pages) e (subst (Walk x (emit x xs)) l (emit-Walk x xs r.1)),
      )

  -- The window begins with page 1 and ends with the last page; in between it goes page by page, and
  -- a gap always stands for two hidden pages or more.
  pub page_window-Walk :
      (out : List (Option ℕ)) × (page_window current pages radius ≡ some 1 ∷ out) × Walk 1 out pages
  unfolding page_window sorted
  page_window-Walk = emit_all-Walk sorted contains-sorted sorted-Rises (
      last_from-contains 0 pages sorted sorted-Rises
        (contains-sorted pages ∙ ground (arith, ==_iff pages pages)) sorted_below)

  shows_from :
      (y : ℕ) (s : List ℕ)
      → 1 ≤ y
      → Rises 0 s
      → shows y (emit_all s) ≡ (contains y s || contains (y - 1) s && contains (y + 1) s)
  unfolding contains emit_all
  shows_from y [] h r = ground arith
  shows_from y (x ∷ xs) h r =
      ground (arith, shows-emit y x xs h r.1, Rises-lt x (y - 1) xs r.1, Rises-lt x (y + 1) xs r.1)

  -- A page is shown exactly if it is the first, the last or within the radius of the current one, or
  -- is alone between two such pages.
  pub shows-page_window :
      (y : ℕ)
      → 1 ≤ y
      → shows y (page_window current pages radius) ≡ (
          is_near current pages radius y
          || is_near current pages radius (y - 1) && is_near current pages radius (y + 1))
  unfolding page_window sorted
  shows-page_window y h =
      shows_from y sorted h sorted-Rises
      ∙ rw (contains-sorted y, contains-sorted (y - 1), contains-sorted (y + 1)) refl
