-- ===== src/Api/Tenants.antt =====
-- frontend/src/lib/tenants.ts: the tenants.
use netfleet.Common.{[], ◌∷◌, Text, codes}
use netfleet.Json.{Json, Fields}
use netfleet.Payload.{Optional, opt, req, call, with_json}
use netfleet.Session.Client.{Env, Method}
use netfleet.Api.{Endpoint, json_endpoint, void_endpoint, bare_endpoint, concat}

pub record TenantCreate : Type 0 where
  pub name : Text
  pub slug : Text
  pub description : Optional Text
  pub primary_contact_name : Optional Text
  pub primary_contact_email : Optional Text
  pub primary_contact_phone : Optional Text

unfoldable pub tenant_create_json : TenantCreate → Fields
tenant_create_json p = req "name" (Json.text p.name) (
    req "slug" (Json.text p.slug) (
      opt Json.text "description" p.description (
        opt Json.text "primary_contact_name" p.primary_contact_name (
          opt Json.text "primary_contact_email" p.primary_contact_email
            (opt Json.text "primary_contact_phone" p.primary_contact_phone Fields.end)))))

pub record TenantUpdate : Type 0 where
  pub name : Optional Text
  pub description : Optional Text
  pub primary_contact_name : Optional Text
  pub primary_contact_email : Optional Text
  pub primary_contact_phone : Optional Text

unfoldable pub tenant_update_json : TenantUpdate → Fields
tenant_update_json p = opt Json.text "name" p.name (
    opt Json.text "description" p.description (
      opt Json.text "primary_contact_name" p.primary_contact_name (
        opt Json.text "primary_contact_email" p.primary_contact_email
          (opt Json.text "primary_contact_phone" p.primary_contact_phone Fields.end))))

unfoldable pub list_tenants : Env → Endpoint
list_tenants env = bare_endpoint (call env Method.get (codes "tenants"))

unfoldable pub get_tenant : Env → Text → Endpoint
get_tenant env id = bare_endpoint (call env Method.get (concat (codes "tenants/" ∷ id ∷ [])))

unfoldable pub create_tenant : Env → TenantCreate → Endpoint
create_tenant env payload =
    json_endpoint (with_json (tenant_create_json payload) (call env Method.post (codes "tenants")))

unfoldable pub update_tenant : Env → Text → TenantUpdate → Endpoint
update_tenant env id payload = json_endpoint (
    with_json (tenant_update_json payload)
      (call env Method.patch (concat (codes "tenants/" ∷ id ∷ []))))

unfoldable pub delete_tenant : Env → Text → Endpoint
delete_tenant env id = void_endpoint (call env Method.delete (concat (codes "tenants/" ∷ id ∷ [])))
