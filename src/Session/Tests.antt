-- ===== src/Session/Tests.antt =====
-- Runs of the session's code on concrete inputs, and its theorems at inputs that meet their
-- hypotheses.
use netfleet.Common.{
  ◌+◌, ◌≡◌, refl, ◌↔◌, inr, ◌≤◌, none, some, [], ◌∷◌, true, false, ◌&&◌, arith, length, All, codes,
  text_eq, includes, ends_with, if◌then◌else◌,
}
use netfleet.Json.{Json, Fields, get, get_text}
use netfleet.Payload.{call}
use netfleet.Session.Storage.{
  ms, entry, AuthStorage, construct, clear, get_access_token, set_access_token, set_given,
  is_expiring_soon, is_truthy, is_before,
}
use netfleet.Session.Storage.Expiry.{get_access_token_expired}
use netfleet.Session.Storage.Reload.{IsInSync}
use netfleet.Session.Client.{
  Method, Env, Tab, Request, response, no_response, TokenPair, token_pair, refresh_request,
  before_request, after_response, send, do_refresh, finish_refresh, retry, fetch, store_token,
  current_token, skips_refresh, skips_retry, await_call, json_call, rethrow, ok,
}
use netfleet.Session.Client.Traffic.{send-IsBootstrap, send-sent_le}
use netfleet.Session.Client.Retry.{Grants, after_response-Grants, before_request-bearer}
use netfleet.Session.Auth.{login, logout, fetch_me, is_final, keep_final, keep_token, signed_in}
use netfleet.Session.Auth.SignIn.{
  login_complete, logout-forgets_token, fetch_me-signed_out, is_success, answers_nobody,
}
use netfleet.Session.Auth.History.{Action, act, act_all, reload-act_all}
use netfleet.Session.Refresh.{Browser, Step, at_rest, Reach, here, next}
use netfleet.Session.Refresh.Order.{Reach-serialised}
use netfleet.Session.Refresh.Flights.{waits, posts, Reach-IsSingle}

abbrev tokens : Json
tokens = Json.object (
    Fields.field (codes "status") (Json.text (codes "ok")) (
      Fields.field (codes "access_token") (Json.text (codes "new"))
        (Fields.field (codes "expires_at") (Json.text (codes "soon")) Fields.end)))

abbrev pair : TokenPair
pair = record { access_token = codes "new"; expires_at = codes "soon" }

-- A server that grants every refresh and sign-in, and answers 401 to a request without the new
-- token. Dates are an hour after 1970.
abbrev granting : Env
granting = record {
  api_base = codes "/api/v1";
  date_ms = λ iso. ms 3600000;
  serve = λ sent r.
      if includes r.url (codes "/auth/refresh")
      then (response 200 [] (some tokens), 5)
      else if ends_with r.url (codes "/auth/login")
      then (response 200 [] (some tokens), 5)
      else elim r.bearer [
        | none ↦ (response 401 [] none, 5)
        | some t ↦
            if text_eq t (codes "new")
            then (response 200 [] (some Json.null), 5)
            else (response 401 [] none, 5)
      ];
}

-- A server that answers 401 to everything.
abbrev refusing : Env
refusing = record granting { serve = λ sent r. (response 401 (codes "Unauthorized") none, 5) }

-- A stored token, with ten minutes left.
abbrev held : AuthStorage
held = record {
  token = some (codes "old");
  expires_at = ms 700000;
  listeners = [];
  has_window = true;
  shadow = some (entry (codes "old") (ms 700000));
  heard = [];
}

abbrev tab : Tab
tab = record { storage = held; last_refresh_rejected = false; now = 100000; sent = [] }

abbrev devices : Request
devices = call granting Method.get (codes "devices")

runs : Unit {0}
unfolding includes ends_with text_eq token_pair get get_text send before_request after_response
    do_refresh finish_refresh retry fetch store_token set_access_token current_token
    get_access_token is_expiring_soon skips_refresh skips_retry clear await_call json_call rethrow
    login keep_final keep_token is_final set_given signed_in logout fetch_me construct
runs = tt

-- A request with an old token is sent, refused, and sent again after a refresh.
retried :
    ((send granting devices tab).1 ≡ response 200 [] (some Json.null))
    × (length (send granting devices tab).0.sent ≡ 3)
    × ((send refusing devices tab).0.storage.token ≡ none)
unfolding runs
retried = (refl, refl, refl)

get_access_token_expired_example :
    ((get_access_token 700001 held).1 ≡ none)
    × ((get_access_token 5 (get_access_token 700001 held).0).1 ≡ none)
    × ((construct 5 true (get_access_token 700001 held).0.shadow).token ≡ none)
get_access_token_expired_example =
    get_access_token_expired 700001 699999 5 held refl refl (omega arith)

send-sent_le_example :
    (length tab.sent + 1 ≤ length (send granting devices tab).0.sent)
    × (length (send granting devices tab).0.sent ≤ length tab.sent + 4)
send-sent_le_example = send-sent_le granting devices tab

abbrev sign_in : Request
sign_in = call refusing Method.post (codes "auth/login")

send-IsBootstrap_example :
    ((send refusing sign_in tab).0.sent ≡ (before_request refusing sign_in tab).1 ∷ tab.sent)
    × ((send refusing sign_in tab).1 ≡ response 401 (codes "Unauthorized") none)
    × ((send refusing sign_in tab).0.last_refresh_rejected ≡ false)
    × ((send refusing sign_in tab).0.storage ≡ (get_access_token tab.now held).0)
unfolding runs
send-IsBootstrap_example = send-IsBootstrap refusing sign_in tab (inr refl)

grants : Grants (granting.serve [] (refresh_request granting)).0 pair
unfolding runs
grants = record {
  status = 200;
  reason = [];
  body = tokens;
  shape = refl;
  success = refl;
  pair = refl;
  filled = refl;
}

after_response-Grants_example :
    let again = record devices { bearer = some (codes "new") } in
    ((after_response granting devices (response 401 [] none) tab).0.sent
      ≡ again ∷ refresh_request granting ∷ [])
    × ((after_response granting devices (response 401 [] none) tab).0.storage.token
        ≡ some (codes "new"))
    × ((after_response granting devices (response 401 [] none) tab).1
        ≡ (granting.serve (refresh_request granting ∷ []) again).0)
unfolding runs
after_response-Grants_example =
    after_response-Grants granting devices (response 401 [] none) tab pair refl refl grants

before_request-bearer_example :
    ((before_request granting devices tab).0.storage.token ≡ some (codes "old"))
    × (is_truthy (before_request granting devices tab).0.storage.expires_at
          && is_before
              (before_request granting devices tab).0.storage.expires_at
              (before_request granting devices tab).0.now
        ≡ false)
unfolding runs
before_request-bearer_example = before_request-bearer granting devices tab (codes "old") refl refl

login_complete_example :
    (v : Json) × (is_final v ≡ true)
    × ((login granting (codes "a") (codes "b") tab).1 ≡ ok v)
    × ((login granting (codes "a") (codes "b") tab).0.storage
        ≡ set_given granting.date_ms
            (get_text (codes "access_token") v)
            (get_text (codes "expires_at") v)
            (get_access_token tab.now tab.storage).0)
    × (length (login granting (codes "a") (codes "b") tab).0.sent ≡ length tab.sent + 1)
unfolding runs
login_complete_example = login_complete granting (codes "a") (codes "b") tab refl

held-IsInSync : IsInSync held
held-IsInSync = record { windowed = refl; mirrored = refl }

logout-forgets_token_example :
    let sent = (send refusing (call refusing Method.post (codes "auth/logout")) tab).1 in
    ((logout refusing tab).0.storage.token ≡ none)
    × ((construct 7 true (logout refusing tab).0.storage.shadow).token ≡ none)
    × (((logout refusing tab).1 ≡ ok tt) ↔ (is_success sent ≡ true))
logout-forgets_token_example = logout-forgets_token refusing tab 7 held-IsInSync

fetch_me-signed_out_example :
    ((fetch_me refusing tab).1 ≡ ok none)
    ↔ (answers_nobody (send refusing (call refusing Method.get (codes "auth/me")) tab).1 ≡ true)
fetch_me-signed_out_example = fetch_me-signed_out refusing tab

-- A sign-out that gets no answer leaves the refresh cookie: the next request gets a new token.
abbrev cut_off : Env
cut_off = record granting {
  serve = λ sent r.
      if ends_with r.url (codes "/auth/logout")
      then (no_response (codes "Failed to fetch"), 5)
      else granting.serve sent r;
}

cookie_outlives_logout :
    ((logout cut_off tab).0.storage.token ≡ none)
    × ((fetch_me cut_off (logout cut_off tab).0).0.storage.token ≡ some (codes "new"))
unfolding runs
cookie_outlives_logout = (refl, refl)

-- An answer of 200 without tokens: the sign-in succeeds, and there is no token.
abbrev empty_handed : Env
empty_handed = record granting {
  serve = λ sent r. (
    response 200 []
        (some (Json.object (Fields.field (codes "status") (Json.text (codes "ok")) Fields.end))),
    5,
  );
}

signed_in_without_token :
    ((login empty_handed (codes "a") (codes "b") tab).0.storage.token ≡ none)
    × ((v : Json) × ((login empty_handed (codes "a") (codes "b") tab).1 ≡ ok v))
unfolding runs
signed_in_without_token = (refl, (_, refl))

abbrev loaded : Tab
loaded = record tab { storage = held }

reload-act_all_example :
    let w = act_all granting (Action.sign_in (codes "a") (codes "b") ∷ []) loaded in
    ((construct 200000 true w.storage.shadow).token ≡ some (codes "new"))
    × ((construct 200000 true w.storage.shadow).expires_at ≡ ms 3600000)
unfolding runs act act_all
reload-act_all_example =
    reload-act_all granting (Action.sign_in (codes "a") (codes "b") ∷ []) 0
      (some (entry (codes "old") (ms 700000))) loaded _ (codes "new") 200000 3600000 refl refl refl
      refl

-- Tab 3 refreshes with the cookie 8, tab 5 waits for the lock, and a request that was given up sets
-- the cookie 9.
flight : (s : Browser) × Reach (at_rest true 8) s
unfolding at_rest
flight = (
  _,
  next
      (next (next (next here (Step.call 3 refl refl)) (Step.grant 3 [] refl refl))
        (Step.call 5 refl refl))
      (Step.set_cookie 9),
)

Reach-serialised_example :
    (length flight.0.exchanges ≤ 1)
    × All
        (λ e.
          (flight.0.holder ≡ some e.tab) × (e.since ≡ flight.0.foreign → e.cookie ≡ flight.0.jar))
        flight.0.exchanges
Reach-serialised_example = Reach-serialised 8 flight.0 flight.1

Reach-IsSingle_example :
    waits 5 flight.0.queue + posts 5 flight.0.exchanges ≡ (if flight.0.in_flight 5 then 1 else 0)
Reach-IsSingle_example = Reach-IsSingle true 8 flight.0 flight.1 5
