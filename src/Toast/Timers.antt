-- ===== src/Toast/Timers.antt =====
-- When the timers of the notifications fire.
use netfleet.Common.{
  ℕ, ◌+◌, ◌≤◌, ◌≡◌, refl, List, [], ◌∷◌, ◌++◌, map, none, some, Bool, true, false, not, ◌&&◌, ◌||◌,
  ◌==◌, All, Bool-cases, inl, inr, arith,
}
use netfleet.Toast.{
  ToastItem, ToastRow, Toasts, timeout_ms, push, remove, effect, paused_of, render, set_paused,
  IsPending, Step, empty, Reach,
}

-- No timer runs for a row that is hovered; one that runs fires now or later, in 3 s at the latest.
pub record IsTimed (now : ℕ) (r : ToastRow) : Type 0 where
  pub resting : r.paused ≡ true → r.fires_at ≡ none
  pub due : (t : ℕ) → r.fires_at ≡ some t → (now ≤ t) × (t ≤ now + timeout_ms)

effect-IsTimed : (now id : ℕ) (paused : Bool) → IsTimed now (effect now id paused)
unfolding effect
effect-IsTimed now id true = record { resting = λ h. refl; due = λ t h. cc }
effect-IsTimed now id false = record { resting = λ h. cc; due = λ t h. ground arith }

set_paused-IsTimed :
    (now id : ℕ) (p : Bool) (rows : List ToastRow)
    → All (IsTimed now) rows
    → All (IsTimed now) (set_paused now id p rows)
unfolding set_paused
set_paused-IsTimed now id p [] h = tt
set_paused-IsTimed now id p (r ∷ rows) h =
    let rest = set_paused-IsTimed now id p rows h.1 in
    elim (Bool-cases (r.id == id)) [
      | inl same ↦ elim (Bool-cases (p && not r.paused || r.paused && not p)) [
        | inl changes ↦ rw (same, changes) (effect-IsTimed now id p, rest)
        | inr stays ↦ rw (same, stays) (h.0, rest)
      ]
      | inr differs ↦ rw differs (h.0, rest)
    ]

render-IsTimed :
    (now : ℕ) (paused : ℕ → Bool) (items : List ToastItem)
    → All (IsTimed now) (map (λ (t : ToastItem). effect now t.id (paused t.id)) items)
render-IsTimed now paused [] = tt
render-IsTimed now paused (t ∷ items) =
    (effect-IsTimed now t.id (paused t.id), render-IsTimed now paused items)

stop-IsTimed :
    (now : ℕ) (before after : List ToastRow) (r : ToastRow)
    → All (IsTimed now) (before ++ r ∷ after)
    → All (IsTimed now) (before ++ record r { fires_at = none } ∷ after)
stop-IsTimed now [] after r h = (record { resting = λ p. refl; due = λ t e. cc }, h.1)
stop-IsTimed now (b ∷ before) after r h = (h.0, stop-IsTimed now before after r h.1)

pass-IsTimed :
    (now ms : ℕ) (rows : List ToastRow)
    → All (IsPending (now + ms)) rows
    → All (IsTimed now) rows
    → All (IsTimed (now + ms)) rows
pass-IsTimed now ms [] w h = tt
pass-IsTimed now ms (r ∷ rows) w h = (
  record { resting = h.0.resting; due = λ t e. (w.0 t e, omega (arith, (h.0.due t e).1)) },
  pass-IsTimed now ms rows w.1 h.1,
)

Step-IsTimed : (s t : Toasts) → Step s t → All (IsTimed s.now) s.rows → All (IsTimed t.now) t.rows
unfolding push remove render
Step-IsTimed s t (Step.pushed v title d) h = h
Step-IsTimed s t (Step.closed before after r e) h = h
Step-IsTimed s t (Step.hovered id p) h = set_paused-IsTimed s.now id p s.rows h
Step-IsTimed s t (Step.fired before after r e f) h = stop-IsTimed s.now before after r (rw e at h)
Step-IsTimed s t (Step.rendered k) h = render-IsTimed s.now (λ id. paused_of id s.rows) s.items
Step-IsTimed s t (Step.passed ms w) h = pass-IsTimed s.now ms s.rows w h

-- No timer runs for a notification while it is paused, and every timer that runs fires within 3 s.
pub Reach-IsTimed : (s : Toasts) → Reach s → All (IsTimed s.now) s.rows
unfolding empty
Reach-IsTimed s Reach.here = tt
Reach-IsTimed t (Reach.next {s} r step) = Step-IsTimed s t step (Reach-IsTimed s r)
