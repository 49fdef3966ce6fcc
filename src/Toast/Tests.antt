-- ===== src/Toast/Tests.antt =====
-- The notification stack after a few steps.
use netfleet.Common.{◌≤◌, ◌≡◌, refl, [], ◌∷◌, none, some, true, false, codes}
use netfleet.Toast.{
  ToastVariant, Toasts, append_last, push, without, remove, effect, paused_of, render, set_paused,
  Step, empty, Reach,
}
use netfleet.Toast.Stack.{IsStack, Reach-IsStack}
use netfleet.Toast.Lingering.{Unhovered, first, Unhovered-lingers}

-- Two notifications, the first of which is hovered.
unfoldable two : Toasts
two = record {
  items =
      record { id = 1; variant = ToastVariant.success; title = codes "Saved"; description = none }
      ∷ record { id = 2; variant = ToastVariant.error; title = codes "Failed"; description = none }
      ∷ [];
  last_id = 2;
  rows =
      record { id = 1; paused = true; fires_at = none }
      ∷ record { id = 2; paused = false; fires_at = some 3000 }
      ∷ [];
  is_stale = false;
  now = 0;
}

two-Reach : Reach two
unfolding two empty push append_last render remove effect paused_of without set_paused
two-Reach =
    Reach.next
      (Reach.next
        (Reach.next (Reach.next Reach.here (Step.pushed ToastVariant.success (codes "Saved") none))
          (Step.pushed ToastVariant.error (codes "Failed") none))
        (Step.rendered refl))
      (Step.hovered 1 true)

Reach-IsStack_example : IsStack two
Reach-IsStack_example = Reach-IsStack two two-Reach

Unhovered-lingers_example : (s : Toasts) × Unhovered s × (60000 ≤ s.now) × (s.items ≡ first ∷ [])
Unhovered-lingers_example = Unhovered-lingers 60000
