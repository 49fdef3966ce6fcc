-- ===== src/Pool.antt =====
-- `runPool` of frontend/src/lib/pool.ts: the workers that share the index of the next item, as a
-- step relation over the calls of `fn` that are under way.
pub mod Calls
pub mod Runs
mod Tests
use netfleet.Common.{ℕ, zero, suc, min, ◌≡◌, List, [], ◌∷◌, ◌++◌, length}

-- `next` is the shared index. `calls` are the items that `fn` was called on, in order; each call is
-- `in_flight`, `done`, or `failed` if its promise was rejected.
pub record Pool {ℓ} (A : Type ℓ) : Type ℓ where
  pub next : ℕ
  pub calls : List A
  pub in_flight : List A
  pub done : List A
  pub failed : List A

module _ {ℓ} {A : Type ℓ} where
  abbrev pub drop : ℕ → List A → List A
  drop zero xs = xs
  drop (suc n) [] = []
  drop (suc n) (x ∷ xs) = drop n xs

  -- `const item = items[next++]; await fn(item);`, where the given items are those from `next` on.
  unfoldable pub call_next : List A → Pool A → Pool A
  call_next [] s = s
  call_next (item ∷ rest) s = record s {
    next = suc s.next;
    calls = s.calls ++ item ∷ [];
    in_flight = s.in_flight ++ item ∷ [];
  }

  -- A worker, from the test of `while (next < items.length)` to its next `await` or its end.
  unfoldable pub turn : List A → Pool A → Pool A
  turn items s = call_next (drop s.next items) s

  -- `Array.from` runs each new worker up to its first `await`.
  unfoldable pub spawn : List A → ℕ → Pool A
  spawn items zero = record { next = 0; calls = []; in_flight = []; done = []; failed = [] }
  spawn items (suc workers) = turn items (spawn items workers)

  unfoldable pub run_pool : List A → ℕ → Pool A
  run_pool items limit = spawn items (min limit (length items))

  -- A call ends. Its worker goes on, or dies with the error that it does not catch.
  pub data Step (items : List A) (s : Pool A) : Pool A → Type ℓ where
    resolve :
        (before after : List A) (item : A)
        → s.in_flight ≡ before ++ item ∷ after
        → Step items s
            (turn items (record s { in_flight = before ++ after; done = s.done ++ item ∷ [] }))
    reject :
        (before after : List A) (item : A)
        → s.in_flight ≡ before ++ item ∷ after
        → Step items s (record s { in_flight = before ++ after; failed = s.failed ++ item ∷ [] })

  -- The states of a run after so many steps.
  pub data Run (items : List A) (limit : ℕ) : ℕ → Pool A → Type ℓ where
    begin : Run items limit 0 (run_pool items limit)
    next : {n : ℕ} {s t : Pool A} → Run items limit n s → Step items s t → Run items limit (suc n) t
