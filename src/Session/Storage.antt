-- ===== src/Session/Storage.antt =====
-- frontend/src/lib/auth-storage.ts: the access token of a tab, with its copy in sessionStorage.
pub mod Expiry
pub mod Reload
use netfleet.Common.{
  ℕ, ◌+◌, Option, none, some, List, [], ◌∷◌, ◌++◌, map, Bool, true, false, not, ◌&&◌, Text, ltb,
  ◌==◌, if◌then◌else◌,
}

-- What `number | null` holds when the number is a time: `null`, NaN (of a date that does not
-- parse) or milliseconds since 1970.
pub data Stamp : Type 0 where
  null : Stamp
  nan : Stamp
  ms : ℕ → Stamp

-- `if (stamp)`
abbrev pub is_truthy : Stamp → Bool
is_truthy null = false
is_truthy nan = false
is_truthy (ms n) = not (n == 0)

-- `stamp < now`; in a comparison `null` counts as 0 and NaN makes it false.
abbrev pub is_before : Stamp → ℕ → Bool
is_before null now = ltb 0 now
is_before nan now = false
is_before (ms n) now = ltb n now

-- `stamp > now`
abbrev pub is_after : Stamp → ℕ → Bool
is_after null now = false
is_after nan now = false
is_after (ms n) now = ltb now n

-- `stamp - now < span`
abbrev pub is_within : Stamp → ℕ → ℕ → Bool
is_within null now span = ltb 0 (now + span)
is_within nan now span = false
is_within (ms n) now span = ltb n (now + span)

-- What JSON.stringify writes for a stamp, as JSON.parse reads it back: NaN becomes null.
abbrev pub json_stamp : Stamp → Stamp
json_stamp nan = null
json_stamp null = null
json_stamp (ms n) = ms n

-- The text under the key netfleet.access_token, as JSON.parse reads it: `garbage` is a text that
-- does not parse, or has no `expiresAt`, and `tokenless` one whose token was `undefined`.
pub data Shadow : Type 0 where
  garbage : Shadow
  entry : Text → Stamp → Shadow
  tokenless : Stamp → Shadow

-- JSON.stringify leaves a member out that is `undefined`.
abbrev pub shadow_of : Option Text → Stamp → Shadow
shadow_of none e = tokenless e
shadow_of (some t) e = entry t e

-- `listeners` is a set, of which a number names each member; `heard` lists the calls that they
-- got, the latest last. A token that is `undefined` is `none`, as `null` is.
pub record AuthStorage : Type 0 where
  pub token : Option Text
  pub expires_at : Stamp
  pub listeners : List ℕ
  pub has_window : Bool
  pub shadow : Option Shadow
  pub heard : List (ℕ × Option Text)

-- The test of the constructor on a parsed entry.
restore : ℕ → AuthStorage → Option Shadow → AuthStorage
restore now s none = s
restore now s (some garbage) = s
restore now s (some (entry t e)) =
    if is_after e now then record s { token = some t; expires_at = e } else s
restore now s (some (tokenless e)) =
    if is_after e now then record s { token = none; expires_at = e } else s

-- The constructor, on a page load at `now`.
unfoldable pub construct : ℕ → Bool → Option Shadow → AuthStorage
unfolding restore
construct now has_window shadow =
    let blank : AuthStorage = record {
      token = none;
      expires_at = null;
      listeners = [];
      has_window = has_window;
      shadow = shadow;
      heard = [];
    } in
    if has_window then restore now blank shadow else blank

-- `this.listeners.forEach((l) => l(token))`
abbrev notify : Option Text → AuthStorage → AuthStorage
notify t s = record s { heard = s.heard ++ map (λ l. (l, t)) s.listeners }

unfoldable pub clear : AuthStorage → AuthStorage
clear s =
    notify none (record s {
      token = none;
      expires_at = null;
      shadow = if s.has_window then none else s.shadow;
    })

unfoldable pub get_access_token : ℕ → AuthStorage → AuthStorage × Option Text
unfolding clear
get_access_token now s =
    if is_truthy s.expires_at && is_before s.expires_at now then (clear s, none) else (s, s.token)

abbrev is_none : Option Text → Bool
is_none none = true
is_none (some t) = false

unfoldable pub is_expiring_soon : ℕ → ℕ → AuthStorage → Bool
is_expiring_soon now within_ms s =
    if is_truthy s.expires_at then is_within s.expires_at now within_ms else is_none s.token

unfoldable pub expires_at_ms : AuthStorage → Stamp
expires_at_ms s = s.expires_at

-- `date_ms` is `new Date(iso).getTime()`.
unfoldable pub set_access_token : (Text → Stamp) → Text → Text → AuthStorage → AuthStorage
set_access_token date_ms token expires_at_iso s =
    let e = date_ms expires_at_iso in
    notify (some token) (record s {
      token = some token;
      expires_at = e;
      shadow = if s.has_window then some (entry token (json_stamp e)) else s.shadow;
    })

abbrev pub date_of : (Text → Stamp) → Option Text → Stamp
date_of date_ms none = nan
date_of date_ms (some iso) = date_ms iso

-- `setAccessToken` on what a response's body has under the two names: `undefined` where it has
-- nothing, of which `new Date` makes NaN.
unfoldable pub set_given : (Text → Stamp) → Option Text → Option Text → AuthStorage → AuthStorage
set_given date_ms token expires_at_iso s =
    let e = date_of date_ms expires_at_iso in
    notify token (record s {
      token = token;
      expires_at = e;
      shadow = if s.has_window then some (shadow_of token (json_stamp e)) else s.shadow;
    })

contains : ℕ → List ℕ → Bool
contains l [] = false
contains l (k ∷ ks) = if l == k then true else contains l ks

remove : ℕ → List ℕ → List ℕ
remove l [] = []
remove l (k ∷ ks) = let rest = remove l ks in if l == k then rest else k ∷ rest

-- `subscribe`, and the function that it returns.
unfoldable pub subscribe : ℕ → AuthStorage → AuthStorage
unfolding contains
subscribe l s = if contains l s.listeners then s else record s { listeners = s.listeners ++ l ∷ [] }

unfoldable pub unsubscribe : ℕ → AuthStorage → AuthStorage
unfolding remove
unsubscribe l s = record s { listeners = remove l s.listeners }
