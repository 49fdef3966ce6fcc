-- ===== src/Api/DeviceOps.antt =====
-- frontend/src/lib/device-ops.ts: IP services, users and groups of a device.
use netfleet.Common.{ℕ, List, [], ◌∷◌, Bool, Text, codes}
use netfleet.Json.{Json, Fields}
use netfleet.Payload.{Optional, opt, req, texts, call, with_json, with_search, bool_text}
use netfleet.Session.Client.{Env, Method}
use netfleet.Api.{Endpoint, json_endpoint, void_endpoint, bare_endpoint, concat}

pub record IpServiceUpdate : Type 0 where
  pub enabled : Optional Bool
  pub port : Optional ℕ
  pub address : Optional Text

unfoldable pub ip_service_update_json : IpServiceUpdate → Fields
ip_service_update_json p =
    opt Json.boolean "enabled" p.enabled
      (opt Json.number "port" p.port (opt Json.text "address" p.address Fields.end))

pub record DeviceUserCreate : Type 0 where
  pub username : Text
  pub password : Optional Text
  pub groups : Optional (List Text)
  pub shell : Optional Text
  pub comment : Optional Text
  pub create_home : Optional Bool

unfoldable pub device_user_create_json : DeviceUserCreate → Fields
device_user_create_json p = req "username" (Json.text p.username) (
    opt Json.text "password" p.password (
      opt (λ ts. Json.array (texts ts)) "groups" p.groups
        (opt Json.text "shell" p.shell (
          opt Json.text "comment" p.comment
            (opt Json.boolean "create_home" p.create_home Fields.end)))))

unfoldable pub list_ip_services : Env → Text → Endpoint
list_ip_services env device_id =
    json_endpoint
      (call env Method.get (concat (codes "devices/" ∷ device_id ∷ codes "/ip-services" ∷ [])))

unfoldable pub update_ip_service : Env → Text → Text → IpServiceUpdate → Endpoint
update_ip_service env device_id name payload = void_endpoint (
    with_json (ip_service_update_json payload) (
      call env Method.patch
        (concat (codes "devices/" ∷ device_id ∷ codes "/ip-services/" ∷ name ∷ []))))

unfoldable pub list_device_groups : Env → Text → Endpoint
list_device_groups env device_id =
    bare_endpoint
      (call env Method.get (concat (codes "devices/" ∷ device_id ∷ codes "/system-groups" ∷ [])))

unfoldable pub create_device_user : Env → Text → DeviceUserCreate → Endpoint
create_device_user env device_id payload = void_endpoint (
    with_json (device_user_create_json payload)
      (call env Method.post (concat (codes "devices/" ∷ device_id ∷ codes "/system-users" ∷ []))))

unfoldable pub set_device_user_groups : Env → Text → Text → List Text → Endpoint
set_device_user_groups env device_id username groups = void_endpoint (
    with_json (req "groups" (Json.array (texts groups)) Fields.end) (
      call env Method.put (
        concat (
          codes "devices/"
          ∷ device_id
          ∷ codes "/system-users/"
          ∷ username
          ∷ codes "/groups"
          ∷ []))))

unfoldable pub create_device_group : Env → Text → Text → Endpoint
create_device_group env device_id name = void_endpoint (
    with_json (req "name" (Json.text name) Fields.end)
      (call env Method.post (concat (codes "devices/" ∷ device_id ∷ codes "/system-groups" ∷ []))))

unfoldable pub delete_device_group : Env → Text → Text → Endpoint
delete_device_group env device_id name = void_endpoint (
    call env Method.delete
      (concat (codes "devices/" ∷ device_id ∷ codes "/system-groups/" ∷ name ∷ [])))

unfoldable pub list_device_users : Env → Text → Endpoint
list_device_users env device_id =
    json_endpoint
      (call env Method.get (concat (codes "devices/" ∷ device_id ∷ codes "/system-users" ∷ [])))

unfoldable pub reset_device_user_password : Env → Text → Text → Text → Endpoint
reset_device_user_password env device_id username new_password = void_endpoint (
    with_json (req "new_password" (Json.text new_password) Fields.end) (
      call env Method.post (
        concat (
          codes "devices/"
          ∷ device_id
          ∷ codes "/system-users/"
          ∷ username
          ∷ codes "/password"
          ∷ []))))

unfoldable pub set_device_user_disabled : Env → Text → Text → Bool → Endpoint
set_device_user_disabled env device_id username disabled = void_endpoint (
    with_json (req "disabled" (Json.boolean disabled) Fields.end) (
      call env Method.post (
        concat (
          codes "devices/"
          ∷ device_id
          ∷ codes "/system-users/"
          ∷ username
          ∷ codes "/disabled"
          ∷ []))))

unfoldable pub delete_device_user : Env → Text → Text → Bool → Endpoint
delete_device_user env device_id username remove_home = void_endpoint (
    with_search ((codes "remove_home", bool_text remove_home) ∷ []) (
      call env Method.delete
        (concat (codes "devices/" ∷ device_id ∷ codes "/system-users/" ∷ username ∷ []))))
