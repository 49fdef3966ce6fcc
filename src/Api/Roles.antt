-- ===== src/Api/Roles.antt =====
-- frontend/src/lib/roles.ts: roles and their permissions.
use netfleet.Common.{List, [], ◌∷◌, Text, codes}
use netfleet.Json.{Json, Fields}
use netfleet.Payload.{Optional, opt, req, objects, call, with_json}
use netfleet.Session.Client.{Env, Method}
use netfleet.Api.{Endpoint, json_endpoint, void_endpoint, bare_endpoint, concat}

pub data PermissionAction : Type 0 where
  read write execute : PermissionAction

abbrev pub permission_action_json : PermissionAction → Json
permission_action_json read = Json.text (codes "read")
permission_action_json write = Json.text (codes "write")
permission_action_json execute = Json.text (codes "execute")

pub record PermissionSpec : Type 0 where
  pub section : Text
  pub action : PermissionAction

unfoldable pub permission_spec_json : PermissionSpec → Fields
permission_spec_json p =
    req "section" (Json.text p.section) (req "action" (permission_action_json p.action) Fields.end)

pub record RoleCreate : Type 0 where
  pub name : Text
  pub description : Optional Text
  pub permissions : List PermissionSpec

unfoldable pub role_create_json : RoleCreate → Fields
role_create_json p = req "name" (Json.text p.name) (
    opt Json.text "description" p.description
      (req "permissions" (Json.array (objects permission_spec_json p.permissions)) Fields.end))

pub record RoleUpdate : Type 0 where
  pub name : Optional Text
  pub description : Optional Text
  pub permissions : Optional (List PermissionSpec)

unfoldable pub role_update_json : RoleUpdate → Fields
role_update_json p = opt Json.text "name" p.name (
    opt Json.text "description" p.description (
      opt (λ xs. Json.array (objects permission_spec_json xs)) "permissions" p.permissions
        Fields.end))

unfoldable pub list_sections : Env → Endpoint
list_sections env = bare_endpoint (call env Method.get (codes "roles/sections"))

unfoldable pub list_roles : Env → Endpoint
list_roles env = bare_endpoint (call env Method.get (codes "roles"))

unfoldable pub create_role : Env → RoleCreate → Endpoint
create_role env payload =
    json_endpoint (with_json (role_create_json payload) (call env Method.post (codes "roles")))

unfoldable pub update_role : Env → Text → RoleUpdate → Endpoint
update_role env id payload = json_endpoint (
    with_json (role_update_json payload)
      (call env Method.patch (concat (codes "roles/" ∷ id ∷ []))))

unfoldable pub delete_role : Env → Text → Endpoint
delete_role env id = void_endpoint (call env Method.delete (concat (codes "roles/" ∷ id ∷ [])))
