-- ===== src/Session/Storage/Reload.antt =====
-- A page reload: what the constructor of auth-storage.ts finds of the session that was stored.
use netfleet.Common.{
  ℕ, ◌≡◌, Option, none, some, true, arith, Text, Bool-cases, ltb, inl, inr, if◌then◌else◌,
}
use netfleet.Session.Storage.{
  Stamp, null, nan, ms, Shadow, garbage, entry, tokenless, json_stamp, AuthStorage, construct,
  clear, get_access_token, set_access_token, set_given,
}

-- A token that is kept has its copy in sessionStorage, with its expiry.
abbrev pub Mirrors : Option Text → AuthStorage → Type 0
Mirrors none s = Unit {0}
Mirrors (some t) s = s.shadow ≡ some (entry t (json_stamp s.expires_at))

pub record IsInSync (s : AuthStorage) : Type 0 where
  pub windowed : s.has_window ≡ true
  pub mirrored : Mirrors s.token s

pub construct-IsInSync : (now : ℕ) (shadow : Option Shadow) → IsInSync (construct now true shadow)
unfolding construct
construct-IsInSync now none = ground arith
construct-IsInSync now (some garbage) = ground arith
construct-IsInSync now (some (entry t null)) = ground arith
construct-IsInSync now (some (entry t nan)) = ground arith
construct-IsInSync now (some (entry t (ms n))) = elim (Bool-cases (ltb now n)) [
  | inl live ↦ rw (live, construct) (ground arith)
  | inr over ↦ rw (over, construct) (ground arith)
]
construct-IsInSync now (some (tokenless null)) = ground arith
construct-IsInSync now (some (tokenless nan)) = ground arith
construct-IsInSync now (some (tokenless (ms n))) = elim (Bool-cases (ltb now n)) [
  | inl live ↦ rw (live, construct) (ground arith)
  | inr over ↦ rw (over, construct) (ground arith)
]

pub clear-IsInSync : (s : AuthStorage) → IsInSync s → IsInSync (clear s)
unfolding clear
clear-IsInSync s v = ground arith

pub set_access_token-IsInSync :
    (date_ms : Text → Stamp) (t iso : Text) (s : AuthStorage)
    → IsInSync s
    → IsInSync (set_access_token date_ms t iso s)
unfolding set_access_token
set_access_token-IsInSync date_ms t iso s v = ground arith

pub set_given-IsInSync :
    (date_ms : Text → Stamp) (t iso : Option Text) (s : AuthStorage)
    → IsInSync s
    → IsInSync (set_given date_ms t iso s)
unfolding set_given
set_given-IsInSync date_ms none iso s v = ground arith
set_given-IsInSync date_ms (some t) none s v = ground arith
set_given-IsInSync date_ms (some t) (some iso) s v = ground arith

pub get_access_token-IsInSync :
    (now : ℕ) (s : AuthStorage) → IsInSync s → IsInSync (get_access_token now s).0
unfolding get_access_token
get_access_token-IsInSync now s v = ground arith

mirror-of :
    (s : AuthStorage) (t : Text)
    → s.token ≡ some t
    → Mirrors s.token s
    → s.shadow ≡ some (entry t (json_stamp s.expires_at))
mirror-of s t held m = rw held at m

pub reload-IsInSync :
    (t : Text) (now n : ℕ) (s : AuthStorage)
    → IsInSync s
    → s.token ≡ some t
    → s.expires_at ≡ ms n
    → ((construct now true s.shadow).token ≡ (if ltb now n then some t else none))
      × ((construct now true s.shadow).expires_at ≡ (if ltb now n then ms n else null))
unfolding construct
reload-IsInSync t now n s v held e =
    let copy = mirror-of s t held v.mirrored in rw (copy, e) (ground arith, ground arith)
