-- ===== src/Pool/Tests.antt =====
-- The theorems on the pool at concrete inputs.
use netfleet.Common.{ℕ, ◌≤◌, ◌≡◌, refl, ◌⊎◌, List, [], ◌∷◌, length, arith}
use mathlib.Core.List.{Perm}
use netfleet.Pool.{Pool, call_next, turn, spawn, run_pool, Step, Run}
use netfleet.Pool.Runs.{Run-done, Run-ends}

-- Three items, two at a time; the second is done before the first.
abbrev items : List ℕ
items = 10 ∷ 20 ∷ 30 ∷ []

abbrev after_one : Pool ℕ
after_one = record {
  next = 3;
  calls = 10 ∷ 20 ∷ 30 ∷ [];
  in_flight = 10 ∷ 30 ∷ [];
  done = 20 ∷ [];
  failed = [];
}

abbrev after_two : Pool ℕ
after_two = record {
  next = 3;
  calls = 10 ∷ 20 ∷ 30 ∷ [];
  in_flight = 30 ∷ [];
  done = 20 ∷ 10 ∷ [];
  failed = [];
}

abbrev at_end : Pool ℕ
at_end = record {
  next = 3;
  calls = 10 ∷ 20 ∷ 30 ∷ [];
  in_flight = [];
  done = 20 ∷ 10 ∷ 30 ∷ [];
  failed = [];
}

after_one-Run : Run items 2 1 after_one
unfolding run_pool spawn turn call_next
after_one-Run = Run.next Run.begin (Step.resolve (10 ∷ []) [] 20 refl)

at_end-Run : Run items 2 3 at_end
unfolding run_pool spawn turn call_next
at_end-Run =
    Run.next (Run.next {t = after_two} after_one-Run (Step.resolve [] (30 ∷ []) 10 refl))
      (Step.resolve [] [] 30 refl)

Run-done_example : (at_end.calls ≡ items) × Perm at_end.done items
Run-done_example = Run-done items 2 3 at_end at_end-Run (omega arith) refl refl

Run-ends_example :
    (1 ≤ length items) × ((after_one.in_flight ≡ []) ⊎ ((t : Pool ℕ) × Step items after_one t))
Run-ends_example = Run-ends items 2 1 after_one after_one-Run
