-- ===== src/Api/AuditLog.antt =====
-- frontend/src/lib/audit.ts: the audit log.
use netfleet.Common.{ℕ, Option, none, some, List, [], ◌∷◌, Text, codes, ◌++◌}
use netfleet.Json.{print}
use netfleet.Payload.{call, with_search}
use netfleet.Session.Client.{Env, Method}
use netfleet.Api.{Endpoint, json_endpoint, void_endpoint, bare_endpoint, concat}

unfoldable pub get_audit_session : Env → Text → Endpoint
get_audit_session env id =
    json_endpoint (call env Method.get (concat (codes "audit/sessions/" ∷ id ∷ [])))

unfoldable pub revoke_audit_session : Env → Text → Endpoint
revoke_audit_session env id =
    void_endpoint
      (call env Method.post (concat (codes "audit/sessions/" ∷ id ∷ codes "/revoke" ∷ [])))

-- The value of an entry of AuditFilters, if it has one.
pub data FilterValue : Type 0 where
  text : Text → FilterValue
  number : ℕ → FilterValue

abbrev filter_param : Text → Option FilterValue → List (Text × Text)
filter_param key none = []
filter_param key (some (text [])) = []
filter_param key (some (text (c ∷ t))) = (key, c ∷ t) ∷ []
filter_param key (some (number n)) = (key, print n) ∷ []

-- The loop over the entries of the filters.
unfoldable pub filter_params : List (Text × Option FilterValue) → List (Text × Text)
filter_params [] = []
filter_params ((key, value) ∷ entries) = filter_param key value ++ filter_params entries

unfoldable pub query_audit : Env → List (Text × Option FilterValue) → Endpoint
query_audit env filters =
    bare_endpoint (with_search (filter_params filters) (call env Method.get (codes "audit")))
