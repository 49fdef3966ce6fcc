-- ===== src/Session/Refresh/Order.antt =====
-- With the lock, refreshes are one after another across all tabs.
use netfleet.Common.{
  ℕ, suc, ◌≤◌, ◌≡◌, refl, ap, subst, Option, none, some, List, [], ◌∷◌, ◌++◌, true, arith, length,
  All,
}
use netfleet.Session.Refresh.{
  Exchange, Browser, Step, join, call, grant, call_direct, receive, fail, set_cookie, at_rest,
  Reach, here, next,
}

-- The cookie is the browser's, unless another answer has set that since.
abbrev IsFresh : Exchange → ℕ → ℕ → Type 0
IsFresh e jar foreign = (e.since ≤ foreign) × (e.since ≡ foreign → e.cookie ≡ jar)

-- Either nobody holds the lock and no POST is waited for, or one is, by the lock's holder.
abbrev InTurn : Option ℕ → List Exchange → ℕ → ℕ → Type 0
InTurn none [] jar foreign = Unit {0}
InTurn (some i) (e ∷ []) jar foreign = (i ≡ e.tab) × IsFresh e jar foreign
InTurn _ _ jar foreign = ⊥

record IsSerial (s : Browser) : Type 0 where
  locks : s.has_locks ≡ true
  turn : InTurn s.holder s.exchanges s.jar s.foreign

-- Where one of the exchanges is picked, it is the only one.
only_one :
    (h : Option ℕ) (before after : List Exchange) (e : Exchange) (jar foreign : ℕ)
    → InTurn h (before ++ e ∷ after) jar foreign
    → (before ≡ []) × (after ≡ [])
only_one none [] after e jar foreign v = absurd v
only_one none (x ∷ before) after e jar foreign v = absurd v
only_one (some i) [] [] e jar foreign v = (refl, refl)
only_one (some i) [] (y ∷ after) e jar foreign v = absurd v
only_one (some i) (x ∷ []) after e jar foreign v = absurd v
only_one (some i) (x ∷ y ∷ before) after e jar foreign v = absurd v

-- Nobody holds the lock: no POST is waited for.
nothing :
    (h : Option ℕ) (es : List Exchange) (jar foreign : ℕ)
    → h ≡ none
    → InTurn h es jar foreign
    → es ≡ []
nothing none [] jar foreign p v = refl
nothing none (x ∷ es) jar foreign p v = absurd v
nothing (some i) es jar foreign p v = cc

-- The cookie changes, and the count with it.
disturbed :
    (h : Option ℕ) (es : List Exchange) (jar foreign c : ℕ)
    → InTurn h es jar foreign
    → InTurn h es c (suc foreign)
disturbed none [] jar foreign c v = tt
disturbed none (x ∷ es) jar foreign c v = absurd v
disturbed (some i) [] jar foreign c v = absurd v
disturbed (some i) (e ∷ []) jar foreign c (held, (bound, kept)) =
    (held, (omega arith, λ p. absurd (omega arith)))
disturbed (some i) (e ∷ x ∷ es) jar foreign c v = absurd v

module _ (s : Browser) (v : IsSerial s) where
  picked :
      (before after : List Exchange) (e : Exchange)
      → s.exchanges ≡ before ++ e ∷ after
      → (before ≡ []) × (after ≡ [])
  picked before after e p =
      only_one s.holder before after e s.jar s.foreign
        (subst (λ es. InTurn s.holder es s.jar s.foreign) p v.turn)

Step-IsSerial : {s t : Browser} → Step s t → IsSerial s → IsSerial t
Step-IsSerial (join i flying) v = v
Step-IsSerial (call i idle locks) v = record { locks = v.locks; turn = v.turn }
Step-IsSerial {s} (grant i rest free first) v =
    let empty = nothing s.holder s.exchanges s.jar s.foreign free v.turn in
    record { locks = v.locks; turn = rw empty (refl, (omega arith, λ p. refl)) }
Step-IsSerial (call_direct i idle no_locks) v = cc
Step-IsSerial {s} (receive before after e c p) v =
    let (b, a) = picked s v before after e p in record { locks = v.locks; turn = rw (b, a) tt }
Step-IsSerial {s} (fail before after e p) v =
    let (b, a) = picked s v before after e p in record { locks = v.locks; turn = rw (b, a) tt }
Step-IsSerial {s} (set_cookie c) v = record {
  locks = v.locks;
  turn = disturbed s.holder s.exchanges s.jar s.foreign c v.turn;
}

Reach-IsSerial : {s t : Browser} → IsSerial s → Reach s t → IsSerial t
Reach-IsSerial v here = v
Reach-IsSerial v (next r step) = Step-IsSerial step (Reach-IsSerial v r)

at_rest-IsSerial : (c : ℕ) → IsSerial (at_rest true c)
unfolding at_rest
at_rest-IsSerial c = record { locks = refl; turn = tt }

in_turn :
    (h : Option ℕ) (es : List Exchange) (jar foreign : ℕ)
    → InTurn h es jar foreign
    → (length es ≤ 1) × All (λ e. (h ≡ some e.tab) × (e.since ≡ foreign → e.cookie ≡ jar)) es
in_turn none [] jar foreign v = (omega arith, tt)
in_turn none (x ∷ es) jar foreign v = absurd v
in_turn (some i) [] jar foreign v = absurd v
in_turn (some i) (e ∷ []) jar foreign (held, (bound, kept)) =
    (omega arith, ((ap some held, kept), tt))
in_turn (some i) (e ∷ x ∷ es) jar foreign v = absurd v

-- Where the browser has locks, whatever the tabs, the network and the server do: in all tabs
-- together at most one POST of a refresh is waited for, by the tab that holds the lock, and it
-- carries the cookie that the browser has, unless an answer to something else has set that since the
-- POST was sent. A POST that was given up is not waited for, though the server may still see it.
pub Reach-serialised :
    (c : ℕ) (s : Browser)
    → Reach (at_rest true c) s
    → (length s.exchanges ≤ 1)
      × All (λ e. (s.holder ≡ some e.tab) × (e.since ≡ s.foreign → e.cookie ≡ s.jar)) s.exchanges
Reach-serialised c s r =
    in_turn s.holder s.exchanges s.jar s.foreign (Reach-IsSerial (at_rest-IsSerial c) r).turn
