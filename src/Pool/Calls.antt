-- ===== src/Pool/Calls.antt =====
-- Which calls a run of `runPool` has made, and how many of them have ended.
use netfleet.Common.{
  ℕ, zero, suc, ◌+◌, min, ◌≡◌, refl, sym, ap, subst, List, [], ◌∷◌, ◌++◌, length, length-append,
  arith,
}
use mathlib.Core.List.{append_assoc, Perm, perm_middle}
use mathlib.Core.List.Perm
use netfleet.Pool.{Pool, drop, call_next, turn, spawn, run_pool, Step, Run}

module _ {ℓ} {A : Type ℓ} where
  drop-suc :
      (n : ℕ) (xs : List A) (x : A) (rest : List A) → drop n xs ≡ x ∷ rest → drop (suc n) xs ≡ rest
  drop-suc zero [] x rest e = cc
  drop-suc zero (y ∷ xs) x rest e = cc
  drop-suc (suc n) [] x rest e = cc
  drop-suc (suc n) (y ∷ xs) x rest e = drop-suc n xs x rest e

  -- The items are called in order, each once; every call is under way, done or failed.
  pub record Keeps (items : List A) (s : Pool A) : Type ℓ where
    pub order : s.calls ++ drop s.next items ≡ items
    pub ledger : Perm s.calls (s.done ++ (s.failed ++ s.in_flight))

  append_assoc_twice : (a b c d : List A) → (a ++ (b ++ c)) ++ d ≡ a ++ (b ++ (c ++ d))
  append_assoc_twice a b c d = rw (append_assoc, append_assoc) refl

  call_next-Keeps :
      (items rest : List A) (s : Pool A)
      → drop s.next items ≡ rest
      → Keeps items s
      → Keeps items (call_next rest s)
  unfolding call_next
  call_next-Keeps items [] s e k = k
  call_next-Keeps items (x ∷ rest) s e k = record {
    order = rw (append_assoc, drop-suc s.next items x rest e) (rw e at k.order);
    ledger =
        subst (Perm (s.calls ++ x ∷ [])) (append_assoc_twice s.done s.failed s.in_flight (x ∷ []))
          (Perm.append_right (x ∷ []) k.ledger);
  }

  -- A call that ends leaves the list of those under way.
  remove :
      (before after : List A) (x : A) (a b : List A)
      → Perm (a ++ (b ++ (before ++ x ∷ after))) ((a ++ x ∷ []) ++ (b ++ (before ++ after)))
  remove before after x a b =
      Perm.trans (Perm.append_left a (Perm.append_left b (perm_middle before after))) (
        subst (Perm (a ++ (b ++ x ∷ (before ++ after)))) (sym (append_assoc a (x ∷ []) _))
          (Perm.append_left a (perm_middle b (before ++ after))))

  resolve-Keeps :
      (items before after : List A) (x : A) (s : Pool A)
      → s.in_flight ≡ before ++ x ∷ after
      → Keeps items s
      → Keeps items (record s { in_flight = before ++ after; done = s.done ++ x ∷ [] })
  resolve-Keeps items before after x s e k = record {
    order = k.order;
    ledger = Perm.trans (rw e at k.ledger) (remove before after x s.done s.failed);
  }

  reject-Keeps :
      (items before after : List A) (x : A) (s : Pool A)
      → s.in_flight ≡ before ++ x ∷ after
      → Keeps items s
      → Keeps items (record s { in_flight = before ++ after; failed = s.failed ++ x ∷ [] })
  reject-Keeps items before after x s e k = record {
    order = k.order;
    ledger =
        Perm.trans (rw e at k.ledger) (Perm.append_left s.done (remove before after x s.failed []));
  }

  spawn-Keeps : (items : List A) (w : ℕ) → Keeps items (spawn items w)
  unfolding spawn turn
  spawn-Keeps items zero = record { order = refl; ledger = Perm.nil }
  spawn-Keeps items (suc w) =
      call_next-Keeps items (drop (spawn items w).next items) (spawn items w) refl
        (spawn-Keeps items w)

  Step-Keeps : (items : List A) (s t : Pool A) → Step items s t → Keeps items s → Keeps items t
  unfolding turn
  Step-Keeps items s t (Step.resolve before after x e) k =
      call_next-Keeps items (drop s.next items) _ refl (resolve-Keeps items before after x s e k)
  Step-Keeps items s t (Step.reject before after x e) k = reject-Keeps items before after x s e k

  pub Run-Keeps : (items : List A) (limit n : ℕ) (s : Pool A) → Run items limit n s → Keeps items s
  unfolding run_pool
  Run-Keeps items limit n s Run.begin = spawn-Keeps items (min limit (length items))
  Run-Keeps items limit (suc n) t (Run.next {s} r step) =
      Step-Keeps items s t step (Run-Keeps items limit n s r)

  call_next-count :
      (rest : List A) (n : ℕ) (s : Pool A)
      → n + length s.in_flight ≡ length s.calls
      → n + length (call_next rest s).in_flight ≡ length (call_next rest s).calls
  unfolding call_next
  call_next-count [] n s e = e
  call_next-count (x ∷ rest) n s e =
      omega (arith, length-append s.in_flight (x ∷ []), length-append s.calls (x ∷ []))

  spawn-count :
      (items : List A) (w : ℕ) → 0 + length (spawn items w).in_flight ≡ length (spawn items w).calls
  unfolding spawn turn
  spawn-count items zero = omega arith
  spawn-count items (suc w) =
      call_next-count (drop (spawn items w).next items) 0 (spawn items w) (spawn-count items w)

  -- Every step ends one call.
  pub Run-count :
      (items : List A) (limit n : ℕ) (s : Pool A)
      → Run items limit n s
      → n + length s.in_flight ≡ length s.calls
  unfolding run_pool turn
  Run-count items limit n s Run.begin = spawn-count items (min limit (length items))
  Run-count items limit (suc n) t (Run.next {s} r (Step.resolve before after x e)) =
      call_next-count (drop s.next items) (suc n) _ (
        omega (
          arith,
          Run-count items limit n s r,
          ap length e,
          length-append before (x ∷ after),
          length-append before after,
        ))
  Run-count items limit (suc n) t (Run.next {s} r (Step.reject before after x e)) = omega (
    arith,
    Run-count items limit n s r,
    ap length e,
    length-append before (x ∷ after),
    length-append before after,
  )
