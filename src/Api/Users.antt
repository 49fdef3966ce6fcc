-- ===== src/Api/Users.antt =====
-- frontend/src/lib/users.ts: the users of the organisation and their roles.
use netfleet.Common.{List, [], ◌∷◌, Bool, Text, codes}
use netfleet.Json.{Json, Fields}
use netfleet.Payload.{Optional, opt, req, texts, objects, call, with_json}
use netfleet.Session.Client.{Env, Method}
use netfleet.Api.{Endpoint, json_endpoint, void_endpoint, bare_endpoint, concat}

pub data AssignmentScope : Type 0 where
  organization tenant site device : AssignmentScope

abbrev pub assignment_scope_json : AssignmentScope → Json
assignment_scope_json organization = Json.text (codes "organization")
assignment_scope_json tenant = Json.text (codes "tenant")
assignment_scope_json site = Json.text (codes "site")
assignment_scope_json device = Json.text (codes "device")

pub record UserCreate : Type 0 where
  pub email : Text
  pub display_name : Text
  pub password : Optional Text
  pub mobile_phone : Optional Text
  pub is_admin : Optional Bool
  pub role_ids : Optional (List Text)

unfoldable pub user_create_json : UserCreate → Fields
user_create_json p = req "email" (Json.text p.email) (
    req "display_name" (Json.text p.display_name) (
      opt Json.text "password" p.password (
        opt Json.text "mobile_phone" p.mobile_phone (
          opt Json.boolean "is_admin" p.is_admin
            (opt (λ ts. Json.array (texts ts)) "role_ids" p.role_ids Fields.end)))))

pub record UserUpdate : Type 0 where
  pub display_name : Optional Text
  pub mobile_phone : Optional Text
  pub is_active : Optional Bool
  pub is_admin : Optional Bool

unfoldable pub user_update_json : UserUpdate → Fields
user_update_json p = opt Json.text "display_name" p.display_name (
    opt Json.text "mobile_phone" p.mobile_phone (
      opt Json.boolean "is_active" p.is_active (opt Json.boolean "is_admin" p.is_admin Fields.end)))

pub record AssignmentCreate : Type 0 where
  pub role_id : Text
  pub scope_type : AssignmentScope
  pub scope_id : Optional Text

unfoldable pub assignment_create_json : AssignmentCreate → Fields
assignment_create_json p = req "role_id" (Json.text p.role_id) (
    req "scope_type" (assignment_scope_json p.scope_type)
      (opt Json.text "scope_id" p.scope_id Fields.end))

pub record AssignmentBulkScope : Type 0 where
  pub scope_type : AssignmentScope
  pub scope_id : Optional Text

unfoldable pub assignment_bulk_scope_json : AssignmentBulkScope → Fields
assignment_bulk_scope_json p =
    req "scope_type" (assignment_scope_json p.scope_type)
      (opt Json.text "scope_id" p.scope_id Fields.end)

pub record AssignmentBulkCreate : Type 0 where
  pub role_id : Text
  pub scopes : List AssignmentBulkScope

unfoldable pub assignment_bulk_create_json : AssignmentBulkCreate → Fields
assignment_bulk_create_json p =
    req "role_id" (Json.text p.role_id)
      (req "scopes" (Json.array (objects assignment_bulk_scope_json p.scopes)) Fields.end)

unfoldable pub list_users : Env → Endpoint
list_users env = bare_endpoint (call env Method.get (codes "users"))

unfoldable pub create_user : Env → UserCreate → Endpoint
create_user env payload =
    json_endpoint (with_json (user_create_json payload) (call env Method.post (codes "users")))

unfoldable pub update_user : Env → Text → UserUpdate → Endpoint
update_user env id payload = json_endpoint (
    with_json (user_update_json payload)
      (call env Method.patch (concat (codes "users/" ∷ id ∷ []))))

unfoldable pub reset_user_password : Env → Text → Text → Endpoint
reset_user_password env id new_password = void_endpoint (
    with_json (req "new_password" (Json.text new_password) Fields.end)
      (call env Method.post (concat (codes "users/" ∷ id ∷ codes "/password" ∷ []))))

unfoldable pub list_assignments : Env → Text → Endpoint
list_assignments env user_id =
    bare_endpoint
      (call env Method.get (concat (codes "users/" ∷ user_id ∷ codes "/assignments" ∷ [])))

unfoldable pub create_assignment : Env → Text → AssignmentCreate → Endpoint
create_assignment env user_id payload = json_endpoint (
    with_json (assignment_create_json payload)
      (call env Method.post (concat (codes "users/" ∷ user_id ∷ codes "/assignments" ∷ []))))

unfoldable pub delete_assignment : Env → Text → Text → Endpoint
delete_assignment env user_id assignment_id = void_endpoint (
    call env Method.delete
      (concat (codes "users/" ∷ user_id ∷ codes "/assignments/" ∷ assignment_id ∷ [])))

unfoldable pub bulk_create_assignments : Env → Text → AssignmentBulkCreate → Endpoint
bulk_create_assignments env user_id payload = json_endpoint (
    with_json (assignment_bulk_create_json payload)
      (call env Method.post (concat (codes "users/" ∷ user_id ∷ codes "/assignments/bulk" ∷ []))))
