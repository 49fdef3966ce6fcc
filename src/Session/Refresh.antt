-- ===== src/Session/Refresh.antt =====
-- `tryRefresh` and `doRefresh` of frontend/src/lib/api.ts where calls overlap: any number of callers
-- in any number of tabs, which share the refresh cookie and the lock "netfleet-auth-refresh".
--
-- What the server does with a cookie is left open: it may grant a refresh or refuse it, and any other
-- answer (of a sign-in, a change of password, a sign-out, or of a refresh that was given up) may set
-- the cookie at any time.
pub mod Order
pub mod Flights
use netfleet.Common.{
  ℕ, suc, ◌≡◌, Option, none, some, List, [], ◌∷◌, ◌++◌, Bool, true, false, ◌==◌, if◌then◌else◌,
}

-- A POST of `doRefresh` that a tab waits for, with the cookie that it carries; `since` is the number
-- of cookies that other answers had set when it was sent.
pub record Exchange : Type 0 where
  pub tab : ℕ
  pub cookie : ℕ
  pub since : ℕ

-- `in_flight i` says that `refreshInFlight` is not null in tab i; `queue` holds the pending requests
-- for the lock, the oldest first. `jar` is the browser's refresh cookie, and `foreign` counts how
-- often an answer that no `doRefresh` waits for has set it.
pub record Browser : Type 0 where
  pub has_locks : Bool
  pub in_flight : ℕ → Bool
  pub queue : List ℕ
  pub holder : Option ℕ
  pub exchanges : List Exchange
  pub jar : ℕ
  pub foreign : ℕ

abbrev pub update : (ℕ → Bool) → ℕ → Bool → ℕ → Bool
update f i b j = if i == j then b else f j

-- `finally { refreshInFlight = null; }`, with the lock released.
abbrev pub settle : ℕ → List Exchange → Browser → Browser
settle i rest s = record s {
  in_flight = update s.in_flight i false;
  holder = none;
  exchanges = rest;
}

abbrev pub post : ℕ → Browser → List Exchange
post i s = record { tab = i; cookie = s.jar; since = s.foreign } ∷ s.exchanges

pub data Step (s : Browser) : Browser → Type 0 where
  -- `if (refreshInFlight) return refreshInFlight;`
  join : (i : ℕ) → s.in_flight i ≡ true → Step s s
  -- `navigator.locks.request("netfleet-auth-refresh", doRefresh)`
  call :
      (i : ℕ)
      → s.in_flight i ≡ false
      → s.has_locks ≡ true
      → Step s (record s { in_flight = update s.in_flight i true; queue = s.queue ++ i ∷ [] })
  -- The browser grants the lock, and `doRefresh` posts with the cookie of that moment.
  grant :
      (i : ℕ) (rest : List ℕ)
      → s.holder ≡ none
      → s.queue ≡ i ∷ rest
      → Step s (record s { queue = rest; holder = some i; exchanges = post i s })
  -- `return await doRefresh();`
  call_direct :
      (i : ℕ)
      → s.in_flight i ≡ false
      → s.has_locks ≡ false
      → Step s (record s { in_flight = update s.in_flight i true; exchanges = post i s })
  -- The answer arrives, and leaves a cookie in the jar: a new one, or the one that is there.
  receive :
      (before after : List Exchange) (e : Exchange) (c : ℕ)
      → s.exchanges ≡ before ++ e ∷ after
      → Step s (settle e.tab (before ++ after) (record s { jar = c }))
  -- The fetch fails, or is given up at the timeout of ky; the server may still see the request.
  fail :
      (before after : List Exchange) (e : Exchange)
      → s.exchanges ≡ before ++ e ∷ after
      → Step s (settle e.tab (before ++ after) s)
  -- Another answer sets the cookie, or removes it.
  set_cookie : (c : ℕ) → Step s (record s { jar = c; foreign = suc s.foreign })

-- A browser in which no refresh is under way.
unfoldable pub at_rest : Bool → ℕ → Browser
at_rest has_locks c = record {
  has_locks = has_locks;
  in_flight = λ i. false;
  queue = [];
  holder = none;
  exchanges = [];
  jar = c;
  foreign = 0;
}

pub data Reach (s : Browser) : Browser → Type 0 where
  here : Reach s s
  next : {t u : Browser} → Reach s t → Step t u → Reach s u
