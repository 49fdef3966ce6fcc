-- ===== src/Session/Refresh/Flights.antt =====
-- `refreshInFlight`: a tab has one refresh at a time, with the lock or without it.
use netfleet.Common.{
  ℕ, ◌+◌, ◌≡◌, refl, List, [], ◌∷◌, ◌++◌, Bool, arith, ◌==◌, ==_iff, if◌then◌else◌,
}
use netfleet.Session.Refresh.{
  Exchange, Browser, Step, join, call, grant, call_direct, receive, fail, set_cookie, at_rest,
  Reach, here, next,
}

-- How often a tab stands in the queue for the lock.
abbrev pub waits : ℕ → List ℕ → ℕ
waits i [] = 0
waits i (j ∷ js) = (if i == j then 1 else 0) + waits i js

-- How many POSTs a tab waits for.
abbrev pub posts : ℕ → List Exchange → ℕ
posts i [] = 0
posts i (e ∷ es) = (if i == e.tab then 1 else 0) + posts i es

waits-append : (i : ℕ) (xs ys : List ℕ) → waits i (xs ++ ys) ≡ waits i xs + waits i ys
waits-append i [] ys = omega arith
waits-append i (x ∷ xs) ys = omega (arith, waits-append i xs ys)

posts-append : (i : ℕ) (xs ys : List Exchange) → posts i (xs ++ ys) ≡ posts i xs + posts i ys
posts-append i [] ys = omega arith
posts-append i (x ∷ xs) ys = omega (arith, posts-append i xs ys)

-- A tab waits or posts once if `refreshInFlight` is set, and never if it is null.
abbrev pub IsSingle : Browser → ℕ → Type 0
IsSingle s i = waits i s.queue + posts i s.exchanges ≡ (if s.in_flight i then 1 else 0)

posts-picked :
    (s : Browser) (before after : List Exchange) (e : Exchange) (i : ℕ)
    → s.exchanges ≡ before ++ e ∷ after
    → posts i s.exchanges ≡ posts i before + ((if i == e.tab then 1 else 0) + posts i after)
posts-picked s before after e i p = rw p (posts-append i before (e ∷ after))

Step-IsSingle : {s t : Browser} → Step s t → ((i : ℕ) → IsSingle s i) → (i : ℕ) → IsSingle t i
Step-IsSingle (join j flying) v i = v i
Step-IsSingle {s} (call j idle locks) v i =
    ground (arith, v i, waits-append i s.queue (j ∷ []), ==_iff j i, ==_iff i j)
Step-IsSingle {s} (grant j rest free first) v i =
    let w : waits i (j ∷ rest) + posts i s.exchanges ≡ (if s.in_flight i then 1 else 0) =
      rw first at (v i) in
    ground (arith, w)
Step-IsSingle {s} (call_direct j idle no_locks) v i = ground (arith, v i, ==_iff j i, ==_iff i j)
Step-IsSingle {s} (receive before after e c p) v i = ground (
  arith,
  v i,
  posts-picked s before after e i p,
  posts-append i before after,
  ==_iff e.tab i,
  ==_iff i e.tab,
)
Step-IsSingle {s} (fail before after e p) v i = ground (
  arith,
  v i,
  posts-picked s before after e i p,
  posts-append i before after,
  ==_iff e.tab i,
  ==_iff i e.tab,
)
Step-IsSingle (set_cookie c) v i = v i

at_rest-IsSingle : (has_locks : Bool) (c i : ℕ) → IsSingle (at_rest has_locks c) i
unfolding at_rest
at_rest-IsSingle has_locks c i = refl

-- With the lock or without it, and whatever the network and the server do: a tab whose
-- `refreshInFlight` is set has exactly one refresh, which waits for the lock or for its answer, and
-- any other tab has none. So callers that overlap in a tab share one refresh.
pub Reach-IsSingle :
    (has_locks : Bool) (c : ℕ) (s : Browser)
    → Reach (at_rest has_locks c) s
    → (i : ℕ) → waits i s.queue + posts i s.exchanges ≡ (if s.in_flight i then 1 else 0)
Reach-IsSingle has_locks c s here i = at_rest-IsSingle has_locks c i
Reach-IsSingle has_locks c s (next {t} r step) i =
    Step-IsSingle step (λ j. Reach-IsSingle has_locks c t r j) i
