-- ===== src/Toast/Lingering.antt =====
-- How long a notification can stay.
use netfleet.Common.{
  ℕ, zero, suc, ◌+◌, ◌*◌, ◌≤◌, ◌≡◌, refl, subst, [], ◌∷◌, none, some, Bool, true, false, ◌==◌,
  ==_iff, arith, codes,
}
use netfleet.Toast.{
  ToastVariant, ToastItem, Toasts, timeout_ms, append_last, push, without, remove, effect,
  paused_of, render, Step, empty,
}

unfoldable pub is_hover : {s t : Toasts} → Step s t → Bool
is_hover (Step.pushed v title d) = false
is_hover (Step.closed before after r e) = false
is_hover (Step.hovered id p) = true
is_hover (Step.fired before after r e h) = false
is_hover (Step.rendered h) = false
is_hover (Step.passed ms h) = false

-- The states that are reached while the cursor is over no notification.
pub data Unhovered : Toasts → Type 0 where
  here : Unhovered empty
  next : {s t : Toasts} → Unhovered s → (step : Step s t) → is_hover step ≡ false → Unhovered t

abbrev pub first : ToastItem
first = record { id = 1; variant = ToastVariant.info; title = codes "Saved"; description = none }

-- The first notification is alone, and others have come and gone.
abbrev lone : ℕ → ℕ → Toasts
lone k now = record {
  items = first ∷ [];
  last_id = suc k;
  rows = record { id = 1; paused = false; fires_at = some (now + timeout_ms) } ∷ [];
  is_stale = false;
  now = now;
}

other_id : (k : ℕ) → (1 == suc (suc k)) ≡ false
other_id k = ground (arith, ==_iff 1 (suc (suc k)))

begin : Unhovered (lone 0 0)
unfolding empty push append_last render effect is_hover paused_of
begin =
    Unhovered.next
      (Unhovered.next Unhovered.here (Step.pushed ToastVariant.info (codes "Saved") none) refl)
      (Step.rendered refl) refl

same_id : (k : ℕ) → (k == k) ≡ true
same_id k = (==_iff k k).1 refl

-- After 2 s another one comes, and is closed at once.
come_and_go : (k now : ℕ) → Unhovered (lone k now) → Unhovered (lone (suc k) (now + 2000))
unfolding push append_last render remove effect is_hover paused_of without
come_and_go k now u =
    let waited = Unhovered.next u (Step.passed 2000 (λ t e. ground arith, tt)) refl in
    let pushed = Unhovered.next waited (Step.pushed ToastVariant.info [] none) refl in
    let shown = Unhovered.next pushed (Step.rendered refl) refl in
    let closed = Unhovered.next shown (Step.closed (_ ∷ []) [] _ refl) refl in
    let done = Unhovered.next closed (Step.rendered refl) refl in
    rw (other_id k, same_id (suc (suc k))) at done

lingers : (k : ℕ) → Unhovered (lone k (2000 * k))
lingers zero = subst (λ now. Unhovered (lone 0 now)) (omega arith) begin
lingers (suc k) =
    subst (λ now. Unhovered (lone (suc k) now)) (omega arith) (come_and_go k (2000 * k) (lingers k))

-- The first notification can be there at any later time, although the cursor was over no
-- notification.
pub Unhovered-lingers : (n : ℕ) → (s : Toasts) × Unhovered s × (n ≤ s.now) × (s.items ≡ first ∷ [])
Unhovered-lingers n = (lone n (2000 * n), lingers n, omega arith, refl)
