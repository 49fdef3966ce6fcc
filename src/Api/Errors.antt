-- ===== src/Api/Errors.antt =====
-- How the endpoint functions reject.
use netfleet.Common.{ℕ, ◌≡◌, refl, some, true, Text, codes}
use netfleet.Json.{Json, Items, Fields, js_string}
use netfleet.Json
use netfleet.Session.Client.{
  Env, Tab, Result, ok, err, Failure, http, other, read_error_message, rethrow,
}
use netfleet.Api.{Endpoint, perform}

rethrow-other : (r : Result Json) (e : Failure) → rethrow r ≡ err e → (m : Text) × (e ≡ other m)
unfolding rethrow
rethrow-other (ok v) e h = cc
rethrow-other (err f) e h = (js_string (read_error_message f), cc)

-- A function with the `catch` rejects with a plain Error only, never with the HTTPError of ky: its
-- callers cannot see the status.
pub perform-rethrows :
    (env : Env) (e : Endpoint) (w : Tab) (f : Failure)
    → e.rethrows ≡ true
    → (perform env e w).1 ≡ err f
    → (m : Text) × (f ≡ other m)
unfolding perform
perform-rethrows env e w f caught h = rethrow-other _ f (rw caught at h)

-- The API answers a request that does not validate with a `detail` that is an array of objects; of
-- one such object the user is shown "[object Object]", whatever it says.
pub rethrow-validation :
    (status : ℕ) (reason : Text) (body : Json) (problem : Fields)
    → Json.get (codes "detail") body
      ≡ some (Json.array (Items.cons (Json.object problem) Items.nil))
    → rethrow {A = Json} (err (http status reason (some body)))
      ≡ err (other (codes "[object Object]"))
unfolding rethrow read_error_message js_string Json.is_truthy
rethrow-validation status reason body problem h = rw (h, read_error_message) refl
