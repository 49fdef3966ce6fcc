-- ===== src/Pool/Runs.antt =====
-- What every run of `runPool` keeps to, whatever order the calls end in.
use netfleet.Common.{
  ℕ, zero, suc, ◌+◌, ◌≤◌, min, ◌≡◌, refl, sym, ap, ◌∙◌, ◌⊎◌, inl, inr, List, [], ◌∷◌, ◌++◌, length,
  length-append, arith,
}
use mathlib.Core.List.{append-nil, Perm}
use mathlib.Core.List.Perm
use netfleet.Pool.{Pool, drop, call_next, turn, spawn, run_pool, Step, Run}
use netfleet.Pool.Calls.{Run-Keeps, Run-count}

module _ {ℓ} {A : Type ℓ} where
  drop-empty : (n : ℕ) (xs : List A) → length xs ≡ 0 → drop n xs ≡ []
  drop-empty zero [] e = refl
  drop-empty (suc n) [] e = refl
  drop-empty n (x ∷ xs) e = absurd (omega arith)

  -- Of so many workers, each has a call under way or died in one, unless no item is left.
  record Busy (items : List A) (workers : ℕ) (s : Pool A) : Type ℓ where
    at_most : length s.in_flight + length s.failed ≤ workers
    idle : (drop s.next items ≡ []) ⊎ (length s.in_flight + length s.failed ≡ workers)

  call_next-Busy :
      (items rest : List A) (w : ℕ) (s : Pool A)
      → drop s.next items ≡ rest
      → Busy items w s
      → Busy items (suc w) (call_next rest s)
  unfolding call_next
  call_next-Busy items [] w s e b = record { at_most = omega (arith, b.at_most); idle = inl e }
  call_next-Busy items (x ∷ rest) w s e b = record {
    at_most = omega (arith, length-append s.in_flight (x ∷ []), b.at_most);
    idle = elim b.idle [
      | inl none_left ↦ cc
      | inr all_busy ↦ inr (omega (arith, length-append s.in_flight (x ∷ [])))
    ];
  }

  spawn-Busy : (items : List A) (w : ℕ) → Busy items w (spawn items w)
  unfolding spawn turn
  spawn-Busy items zero = record { at_most = omega arith; idle = inr refl }
  spawn-Busy items (suc w) =
      call_next-Busy items (drop (spawn items w).next items) w (spawn items w) refl
        (spawn-Busy items w)

  resolve-Busy :
      (items before after : List A) (x : A) (w : ℕ) (s : Pool A) (done : List A)
      → s.in_flight ≡ before ++ x ∷ after
      → Busy items (suc w) s
      → Busy items w (record s { in_flight = before ++ after; done = done })
  resolve-Busy items before after x w s done e b =
      let was : length s.in_flight ≡ suc (length (before ++ after)) =
        rw (e, length-append, length-append) (omega arith) in
      record {
        at_most = omega (arith, b.at_most, was);
        idle = elim b.idle [
          | inl none_left ↦ inl none_left
          | inr all_busy ↦ inr (omega (arith, was))
        ];
      }

  reject-Busy :
      (items before after : List A) (x : A) (w : ℕ) (s : Pool A)
      → s.in_flight ≡ before ++ x ∷ after
      → Busy items w s
      → Busy items w (record s { in_flight = before ++ after; failed = s.failed ++ x ∷ [] })
  reject-Busy items before after x w s e b =
      let was : length s.in_flight ≡ suc (length (before ++ after)) =
        rw (e, length-append, length-append) (omega arith) in
      let one_more = length-append s.failed (x ∷ []) in
      record {
        at_most = omega (arith, b.at_most, was, one_more);
        idle = elim b.idle [
          | inl none_left ↦ inl none_left
          | inr all_busy ↦ inr (omega (arith, was, one_more))
        ];
      }

  Step-Busy :
      (items : List A) (w : ℕ) (s t : Pool A) → Step items s t → Busy items w s → Busy items w t
  unfolding turn
  Step-Busy items zero s t (Step.resolve before after x e) b =
      absurd (omega (arith, b.at_most, ap length e, length-append before (x ∷ after)))
  Step-Busy items (suc w) s t (Step.resolve before after x e) b =
      call_next-Busy items (drop s.next items) w _ refl
        (resolve-Busy items before after x w s (s.done ++ x ∷ []) e b)
  Step-Busy items w s t (Step.reject before after x e) b = reject-Busy items before after x w s e b

  Run-Busy :
      (items : List A) (limit n : ℕ) (s : Pool A)
      → Run items limit n s
      → Busy items (min limit (length items)) s
  unfolding run_pool
  Run-Busy items limit n s Run.begin = spawn-Busy items (min limit (length items))
  Run-Busy items limit (suc n) t (Run.next {s} r step) =
      Step-Busy items (min limit (length items)) s t step (Run-Busy items limit n s r)

  -- In every state of a run, `fn` was called on the first items of the list, on each once and in
  -- order, and no more calls are under way than the limit allows.
  pub Run-calls :
      (items : List A) (limit n : ℕ) (s : Pool A)
      → Run items limit n s
      → (s.calls ++ drop s.next items ≡ items) × (length s.in_flight ≤ limit)
  Run-calls items limit n s r =
      ((Run-Keeps items limit n s r).order, omega (arith, (Run-Busy items limit n s r).at_most))

  -- When all calls have ended, none of them by an error, and the limit is positive, then `fn` was
  -- called on every item, and is done with each.
  pub Run-done :
      (items : List A) (limit n : ℕ) (s : Pool A)
      → Run items limit n s
      → 1 ≤ limit
      → s.in_flight ≡ []
      → s.failed ≡ []
      → (s.calls ≡ items) × Perm s.done items
  Run-done items limit n s r positive ended well =
      let k = Run-Keeps items limit n s r in
      let left : drop s.next items ≡ [] = elim (Run-Busy items limit n s r).idle [
        | inl none_left ↦ none_left
        | inr all_busy ↦ drop-empty s.next items (omega (arith, ap length ended, ap length well))
      ] in
      let all_called : s.calls ≡ items =
        sym (append-nil s.calls) ∙ ap (λ rest. s.calls ++ rest) (sym left) ∙ k.order in
      let settled : Perm s.calls (s.done ++ []) = rw (ended, well) at k.ledger in
      (all_called, Perm.symm (rw (all_called, append-nil) at settled))

  goes_on :
      (items : List A) (s : Pool A) (calls : List A)
      → s.in_flight ≡ calls
      → (s.in_flight ≡ []) ⊎ ((t : Pool A) × Step items s t)
  goes_on items s [] e = inl e
  goes_on items s (x ∷ rest) e = inr (_, Step.resolve [] rest x e)

  -- A run has at most one step for each item, and goes on as long as a call is under way.
  pub Run-ends :
      (items : List A) (limit n : ℕ) (s : Pool A)
      → Run items limit n s
      → (n ≤ length items) × ((s.in_flight ≡ []) ⊎ ((t : Pool A) × Step items s t))
  Run-ends items limit n s r = (
    omega (
      arith,
      Run-count items limit n s r,
      ap length (Run-Keeps items limit n s r).order,
      length-append s.calls (drop s.next items),
    ),
    goes_on items s s.in_flight refl,
  )
