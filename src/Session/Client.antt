-- ===== src/Session/Client.antt =====
-- frontend/src/lib/api.ts: the shared API client, with its two hooks and the token refresh.
--
-- A call runs to its end before the next one begins, so that `refreshInFlight` is null whenever a
-- refresh starts; calls that overlap, in one tab or in several, are Session/Refresh.antt.
pub mod Traffic
pub mod Retry
pub mod Sync
use netfleet.Common.{
  ℕ, ◌+◌, Option, none, some, List, [], ◌∷◌, ◌++◌, Bool, true, false, not, ◌&&◌, ◌||◌, Text, codes,
  includes, ends_with, ltb, leb, ◌==◌, if◌then◌else◌,
}
use netfleet.Json.{Json, Fields, Items, js_string, print, get_text}
use netfleet.Json
use netfleet.Session.Storage.{
  Stamp, AuthStorage, get_access_token, is_expiring_soon, set_access_token, clear,
}

pub data Method : Type 0 where
  get post put patch delete : Method

-- A request as it is handed to the network; `bearer` is the Authorization header.
pub record Request : Type 0 where
  pub method : Method
  pub url : Text
  pub search : List (Text × Text)
  pub json : Option Json
  pub headers : List (Text × Text)
  pub timeout : ℕ
  pub bearer : Option Text

-- What comes back: a response with its status, its status text and its JSON body; or no response,
-- which is a network error or a timeout. `none` is an empty body, and on a status that is no success
-- also one that is no JSON; a success with such a body is not modelled.
pub data Reply : Type 0 where
  response : ℕ → Text → Option Json → Reply
  no_response : Text → Reply

-- What the client does not implement: where the API is, how the host reads a date, and the network
-- with the server behind it, which answers a request by all that it was sent before (the latest
-- first) and takes some milliseconds. What ky repeats by itself within an exchange is part of that.
pub record Env : Type 0 where
  pub api_base : Text
  pub date_ms : Text → Stamp
  pub serve : List Request → Request → Reply × ℕ

-- A tab: its storage, `lastRefreshRejected`, the clock, and what it sent, the latest first.
pub record Tab : Type 0 where
  pub storage : AuthStorage
  pub last_refresh_rejected : Bool
  pub now : ℕ
  pub sent : List Request

-- A rejected promise: HTTPError with its response, or any other Error with its message.
pub data Failure : Type 0 where
  http : ℕ → Text → Option Json → Failure
  other : Text → Failure

pub data Result {ℓ} (A : Type ℓ) : Type ℓ where
  ok : A → Result A
  err : Failure → Result A

abbrev pub M {ℓ} : Type ℓ → Type ℓ
M A = Tab → Tab × A

infixl 5 ◌>>=◌
abbrev pub ◌>>=◌ {ℓ κ} : {A : Type ℓ} {B : Type κ} → M A → (A → M B) → M B
◌>>=◌ m f w = f (m w).1 (m w).0

abbrev pub pure {ℓ} : {A : Type ℓ} → A → M A
pure a w = (w, a)

-- A response that `response.ok` accepts.
abbrev pub is_ok : ℕ → Bool
is_ok status = leb 200 status && ltb status 300

-- `if (token)` on a string or null.
abbrev pub has_text : Option Text → Bool
has_text none = false
has_text (some []) = false
has_text (some (c ∷ t)) = true

abbrev is_refresh : Text → Bool
is_refresh url = includes url (codes "/auth/refresh")

-- The tests of `beforeRequest` and `afterResponse` on a URL.
unfoldable pub skips_refresh : Text → Bool
skips_refresh url = is_refresh url || ends_with url (codes "/auth/login")

unfoldable pub skips_retry : Text → Bool
skips_retry url =
    is_refresh url
    || ends_with url (codes "/auth/login")
    || ends_with url (codes "/auth/totp/verify")
    || ends_with url (codes "/auth/otp/verify")
    || ends_with url (codes "/auth/otp/send")

pub record TokenPair : Type 0 where
  pub access_token : Text
  pub expires_at : Text

-- The two fields of a body that carries a token; the body of a refresh without them breaks the API's
-- contract, and counts as one that `.json()` refuses.
unfoldable pub token_pair : Json → Option TokenPair
token_pair v = elim (get_text (codes "access_token") v) [
  | none ↦ none
  | some a ↦ elim (get_text (codes "expires_at") v) [
    | none ↦ none
    | some e ↦ some (record { access_token = a; expires_at = e })
  ]
]

abbrev pub token_pair? : Option Json → Option TokenPair
token_pair? none = none
token_pair? (some v) = token_pair v

-- ky throws HTTPError on a status that is not ok.
abbrev pub outcome : Reply → Result (Option Json)
outcome (no_response m) = err (other m)
outcome (response status reason body) =
    if is_ok status then ok body else err (http status reason body)

-- `.json()` of ky on a response that is ok: the empty text where there is no body.
abbrev pub json_of : Result (Option Json) → Result Json
json_of (err e) = err e
json_of (ok none) = ok (Json.text [])
json_of (ok (some v)) = ok v

module _ (env : Env) where
  -- One exchange with the network, by ky.
  unfoldable pub fetch : Request → M Reply
  fetch req w = (
    record w { now = w.now + (env.serve w.sent req).1; sent = req ∷ w.sent },
    (env.serve w.sent req).0,
  )

  -- `authStorage.setAccessToken`
  unfoldable pub store_token : TokenPair → Tab → Tab
  store_token p w = record w {
    storage = set_access_token env.date_ms p.access_token p.expires_at w.storage;
  }

  abbrev pub refresh_request : Request
  refresh_request = record {
    method = post;
    url = env.api_base ++ codes "/auth/refresh";
    search = [];
    json = some (Json.object Fields.end);
    headers = [];
    timeout = 10000;
    bearer = none;
  }

  -- The `try` and `catch` of `doRefresh`, on the reply.
  unfoldable pub finish_refresh : Reply → M (Option Text)
  finish_refresh (no_response m) w = (record w { last_refresh_rejected = false }, none)
  finish_refresh (response status reason body) w =
      if is_ok status
      then elim (token_pair? body) [
        | none ↦ (record w { last_refresh_rejected = false }, none)
        | some p ↦ (store_token p (record w { last_refresh_rejected = false }), some p.access_token)
      ]
      else (record w { last_refresh_rejected = status == 401 }, none)

  unfoldable pub do_refresh : M (Option Text)
  do_refresh = fetch refresh_request >>= finish_refresh

  -- `authStorage.getAccessToken()`
  unfoldable pub current_token : M (Option Text)
  current_token w = (
    record w { storage = (get_access_token w.now w.storage).0 },
    (get_access_token w.now w.storage).1,
  )

  -- The `Authorization` header is set from a token that is not empty.
  abbrev pub bearing : Option Text → Request → Request
  bearing t req = if has_text t then record req { bearer = t } else req

  unfoldable pub before_request : Request → M Request
  before_request req w =
      let w' =
        if not (skips_refresh req.url) && is_expiring_soon w.now 60000 w.storage
        then (do_refresh w).0
        else w in
      ((current_token w').0, bearing (current_token w').1 req)

  -- What `afterResponse` does with the outcome of its refresh.
  unfoldable pub retry : Request → Reply → Option Text → M Reply
  retry req reply refreshed w =
      if has_text refreshed
      then fetch (record req { bearer = refreshed }) w
      else if w.last_refresh_rejected
      then (record w { storage = clear w.storage }, reply)
      else (w, reply)

  unfoldable pub after_response : Request → Reply → M Reply
  after_response req (no_response m) w = (w, no_response m)
  after_response req (response status reason body) w =
      if not (status == 401) || skips_retry req.url
      then (w, response status reason body)
      else retry req (response status reason body) (do_refresh w).1 (do_refresh w).0

  -- A call of `api`: the hooks around one exchange. `afterResponse` does not run on a rejected fetch.
  unfoldable pub send : Request → M Reply
  send req = do wire ← before_request req; reply ← fetch wire; after_response wire reply

  -- `await api…`
  unfoldable pub await_call : Request → M (Result (Option Json))
  await_call req w = ((send req w).0, outcome (send req w).1)

  -- `await api….json()`
  unfoldable pub json_call : Request → M (Result Json)
  json_call req w = ((await_call req w).0, json_of (await_call req w).1)

-- `readErrorMessage(e)`: the `detail` of an error's body, or its status line, or the message.
unfoldable pub read_error_message : Failure → Json
unfolding js_string print Json.get
read_error_message (other m) = Json.text m
read_error_message (http status reason none) = Json.text (print status ++ b' ' ∷ reason)
read_error_message (http status reason (some body)) = elim (Json.get (codes "detail") body) [
  | none ↦ Json.text (print status ++ b' ' ∷ reason)
  | some detail ↦
      if Json.is_truthy detail then detail else Json.text (print status ++ b' ' ∷ reason)
]

-- `catch (e) { throw new Error(await readErrorMessage(e)); }`
unfoldable pub rethrow {ℓ} : {A : Type ℓ} → Result A → Result A
unfolding read_error_message js_string
rethrow (ok a) = ok a
rethrow (err e) = err (other (js_string (read_error_message e)))
