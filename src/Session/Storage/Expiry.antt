-- ===== src/Session/Storage/Expiry.antt =====
-- When auth-storage.ts hands a token out.
use netfleet.Common.{ℕ, suc, ◌<◌, ◌≡◌, refl, none, true, arith}
use netfleet.Session.Storage.{ms, AuthStorage, clear, construct, get_access_token}

-- Once the stored expiry (later than 1970) has passed, a read hands nothing out and leaves a storage
-- in which no later read finds a token and, in a browser, no reload does.
pub get_access_token_expired :
    (now n later : ℕ) (s : AuthStorage)
    → s.has_window ≡ true
    → s.expires_at ≡ ms (suc n)
    → suc n < now
    → ((get_access_token now s).1 ≡ none)
      × ((get_access_token later (get_access_token now s).0).1 ≡ none)
      × ((construct later true (get_access_token now s).0.shadow).token ≡ none)
unfolding get_access_token construct
get_access_token_expired now n later s w e h =
    let gone : get_access_token now s ≡ (clear s, none) = rw (e, get_access_token) (ground arith) in
    rw gone (refl, refl, rw (w, clear) refl)
