-- ===== src/Toast/Stack.antt =====
-- Which notifications the provider keeps.
use netfleet.Common.{
  ℕ, zero, suc, ◌-◌, ◌≤◌, ◌<◌, ◌≡◌, List, [], ◌∷◌, ◌++◌, ◌==◌, length, length-append, Bool-cases,
  inl, inr, arith,
}
use netfleet.Toast.{
  ToastItem, Toasts, max_visible, drop, append_last, push, without, remove, render, Step, empty,
  Reach,
}

-- The ids rise, from above the one number up to the other.
abbrev pub IsRising : ℕ → List ToastItem → ℕ → Type 0
IsRising lo [] hi = lo ≤ hi
IsRising lo (t ∷ ts) hi = (lo < t.id) × IsRising t.id ts hi

IsRising-lower :
    (lo lo' hi : ℕ) (ts : List ToastItem) → lo ≤ lo' → IsRising lo' ts hi → IsRising lo ts hi
IsRising-lower lo lo' hi [] h r = omega arith
IsRising-lower lo lo' hi (t ∷ ts) h r = (omega (arith, r.0), r.1)

append-IsRising :
    (lo hi : ℕ) (ts : List ToastItem) (t : ToastItem)
    → hi < t.id
    → IsRising lo ts hi
    → IsRising lo (ts ++ t ∷ []) t.id
append-IsRising lo hi [] t h r = (omega arith, omega arith)
append-IsRising lo hi (u ∷ ts) t h r = (r.0, append-IsRising u.id hi ts t h r.1)

drop-IsRising : (lo hi n : ℕ) (ts : List ToastItem) → IsRising lo ts hi → IsRising lo (drop n ts) hi
drop-IsRising lo hi zero ts r = r
drop-IsRising lo hi (suc n) [] r = r
drop-IsRising lo hi (suc n) (t ∷ ts) r =
    IsRising-lower lo t.id hi (drop n ts) (omega (arith, r.0)) (drop-IsRising t.id hi n ts r.1)

without-IsRising :
    (lo hi id : ℕ) (ts : List ToastItem) → IsRising lo ts hi → IsRising lo (without id ts) hi
unfolding without
without-IsRising lo hi id [] r = r
without-IsRising lo hi id (t ∷ ts) r =
    let rest = without-IsRising t.id hi id ts r.1 in
    elim (Bool-cases (t.id == id)) [
      | inl same ↦ rw same (IsRising-lower lo t.id hi (without id ts) (omega (arith, r.0)) rest)
      | inr differs ↦ rw differs (r.0, rest)
    ]

length-drop : (n : ℕ) (ts : List ToastItem) → length (drop n ts) ≡ length ts - n
length-drop zero ts = omega arith
length-drop (suc n) [] = omega arith
length-drop (suc n) (t ∷ ts) = omega (arith, length-drop n ts)

length-append_last : (t : ToastItem) (ts : List ToastItem) → length (append_last t ts) ≤ max_visible
unfolding append_last
length-append_last t ts =
    omega (arith, length-drop (suc (length ts) - 3) (ts ++ t ∷ []), length-append ts (t ∷ []))

length-without : (id : ℕ) (ts : List ToastItem) → length (without id ts) ≤ length ts
unfolding without
length-without id [] = omega arith
length-without id (t ∷ ts) = ground (arith, length-without id ts)

-- No more than three, and each of its own id, the newest last.
pub record IsStack (s : Toasts) : Type 0 where
  pub few : length s.items ≤ max_visible
  pub rising : IsRising 0 s.items s.last_id

remove-IsStack : (id : ℕ) (s : Toasts) → IsStack s → IsStack (remove id s)
unfolding remove
remove-IsStack id s k = record {
  few = omega (arith, k.few, length-without id s.items);
  rising = without-IsRising 0 s.last_id id s.items k.rising;
}

Step-IsStack : (s t : Toasts) → Step s t → IsStack s → IsStack t
unfolding push append_last remove render
Step-IsStack s t (Step.pushed v title d) k =
    let item : ToastItem = record {
      id = suc s.last_id;
      variant = v;
      title = title;
      description = d;
    } in
    record {
      few = length-append_last item s.items;
      rising =
          drop-IsRising 0 (suc s.last_id) _ (s.items ++ item ∷ [])
            (append-IsRising 0 s.last_id s.items item (omega arith) k.rising);
    }
Step-IsStack s t (Step.closed before after r e) k =
    let k' = remove-IsStack r.id s k in record { few = k'.few; rising = k'.rising }
Step-IsStack s t (Step.hovered id p) k = record { few = k.few; rising = k.rising }
Step-IsStack s t (Step.fired before after r e h) k =
    let k' = remove-IsStack r.id s k in record { few = k'.few; rising = k'.rising }
Step-IsStack s t (Step.rendered h) k = record { few = k.few; rising = k.rising }
Step-IsStack s t (Step.passed ms h) k = record { few = k.few; rising = k.rising }

-- Whatever is pushed, closed, hovered and timed out, there are at most three notifications, and
-- their ids are different: each is greater than those before it, and none is greater than the last
-- one given out.
pub Reach-IsStack : (s : Toasts) → Reach s → IsStack s
unfolding empty
Reach-IsStack s Reach.here = record { few = omega arith; rising = omega arith }
Reach-IsStack t (Reach.next {s} r step) = Step-IsStack s t step (Reach-IsStack s r)
