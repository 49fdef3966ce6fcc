-- ===== src/Api/AccessRequests.antt =====
-- frontend/src/lib/access-requests.ts: requests for access.
use netfleet.Common.{Option, List, [], ◌∷◌, Text, codes}
use netfleet.Json.{Json, Fields}
use netfleet.Payload.{Optional, opt, req, texts, given_param, call, with_json, with_search}
use netfleet.Session.Client.{Env, Method}
use netfleet.Api.{Endpoint, json_endpoint, bare_endpoint, concat}

pub data RequestScope : Type 0 where
  tenant site device : RequestScope

abbrev pub request_scope_json : RequestScope → Json
request_scope_json tenant = Json.text (codes "tenant")
request_scope_json site = Json.text (codes "site")
request_scope_json device = Json.text (codes "device")

pub record AccessRequestCreate : Type 0 where
  pub scope_type : RequestScope
  pub scope_id : Text
  pub reason : Optional Text

unfoldable pub access_request_create_json : AccessRequestCreate → Fields
access_request_create_json p =
    req "scope_type" (request_scope_json p.scope_type)
      (req "scope_id" (Json.text p.scope_id) (opt Json.text "reason" p.reason Fields.end))

pub record AccessRequestApprove : Type 0 where
  pub role_ids : List Text
  pub expires_at : Optional Text
  pub note : Optional Text

unfoldable pub access_request_approve_json : AccessRequestApprove → Fields
access_request_approve_json p =
    req "role_ids" (Json.array (texts p.role_ids))
      (opt Json.text "expires_at" p.expires_at (opt Json.text "note" p.note Fields.end))

pub record AccessRequestDeny : Type 0 where
  pub note : Optional Text

unfoldable pub access_request_deny_json : AccessRequestDeny → Fields
access_request_deny_json p = opt Json.text "note" p.note Fields.end

unfoldable pub create_access_request : Env → AccessRequestCreate → Endpoint
create_access_request env payload = json_endpoint (
    with_json (access_request_create_json payload) (call env Method.post (codes "access-requests")))

unfoldable pub get_access_request : Env → Text → Endpoint
get_access_request env id =
    bare_endpoint (call env Method.get (concat (codes "access-requests/" ∷ id ∷ [])))

unfoldable pub approve_access_request : Env → Text → AccessRequestApprove → Endpoint
approve_access_request env id payload = json_endpoint (
    with_json (access_request_approve_json payload)
      (call env Method.post (concat (codes "access-requests/" ∷ id ∷ codes "/approve" ∷ []))))

unfoldable pub deny_access_request : Env → Text → AccessRequestDeny → Endpoint
deny_access_request env id payload = json_endpoint (
    with_json (access_request_deny_json payload)
      (call env Method.post (concat (codes "access-requests/" ∷ id ∷ codes "/deny" ∷ []))))

unfoldable pub cancel_access_request : Env → Text → Endpoint
cancel_access_request env id =
    json_endpoint
      (call env Method.post (concat (codes "access-requests/" ∷ id ∷ codes "/cancel" ∷ [])))

unfoldable pub fetch_directory : Env → Endpoint
fetch_directory env = bare_endpoint (call env Method.get (codes "access-requests/-/directory"))

pub data AccessRequestStatus : Type 0 where
  pending approved denied cancelled : AccessRequestStatus

abbrev status_text : AccessRequestStatus → Text
status_text pending = codes "pending"
status_text approved = codes "approved"
status_text denied = codes "denied"
status_text cancelled = codes "cancelled"

unfoldable pub list_access_requests : Env → Option AccessRequestStatus → Endpoint
list_access_requests env status = bare_endpoint (
    with_search (given_param status_text "status" status)
      (call env Method.get (codes "access-requests")))
