-- ===== src/Api/Devices.antt =====
-- frontend/src/lib/devices.ts: the devices of the fleet.
use netfleet.Common.{ℕ, Option, [], ◌∷◌, Bool, Text, codes}
use netfleet.Json.{Json, Fields}
use netfleet.Payload.{Optional, opt, req, text_param, call, with_json, with_search}
use netfleet.Session.Client.{Env, Method}
use netfleet.Api.{Endpoint, json_endpoint, void_endpoint, bare_endpoint, concat}

pub data DeviceTransport : Type 0 where
  api rest ssh netconf : DeviceTransport

abbrev pub device_transport_json : DeviceTransport → Json
device_transport_json api = Json.text (codes "api")
device_transport_json rest = Json.text (codes "rest")
device_transport_json ssh = Json.text (codes "ssh")
device_transport_json netconf = Json.text (codes "netconf")

pub data BecomeMethod : Type 0 where
  plain sudo : BecomeMethod

abbrev pub become_method_json : BecomeMethod → Json
become_method_json plain = Json.text (codes "none")
become_method_json sudo = Json.text (codes "sudo")

pub record DeviceCreate : Type 0 where
  pub site_id : Text
  pub vendor : Text
  pub name : Text
  pub host : Text
  pub port : Optional ℕ
  pub ssh_port : Optional ℕ
  pub transport : Optional DeviceTransport
  pub verify_tls : Optional Bool
  pub username : Text
  pub password : Optional Text
  pub api_key : Optional Text
  pub generate_ssh_key : Optional Bool
  pub ssh_private_key : Optional Text
  pub become_method : Optional BecomeMethod
  pub become_password : Optional Text
  pub notes : Optional Text

unfoldable pub device_create_json : DeviceCreate → Fields
device_create_json p = req "site_id" (Json.text p.site_id) (
    req "vendor" (Json.text p.vendor) (
      req "name" (Json.text p.name) (
        req "host" (Json.text p.host) (
          opt Json.number "port" p.port (
            opt Json.number "ssh_port" p.ssh_port (
              opt device_transport_json "transport" p.transport (
                opt Json.boolean "verify_tls" p.verify_tls (
                  req "username" (Json.text p.username) (
                    opt Json.text "password" p.password (
                      opt Json.text "api_key" p.api_key (
                        opt Json.boolean "generate_ssh_key" p.generate_ssh_key (
                          opt Json.text "ssh_private_key" p.ssh_private_key (
                            opt become_method_json "become_method" p.become_method (
                              opt Json.text "become_password" p.become_password
                                (opt Json.text "notes" p.notes Fields.end)))))))))))))))

pub record DeviceUpdate : Type 0 where
  pub name : Optional Text
  pub host : Optional Text
  pub port : Optional ℕ
  pub ssh_port : Optional ℕ
  pub transport : Optional DeviceTransport
  pub verify_tls : Optional Bool
  pub username : Optional Text
  pub password : Optional Text
  pub api_key : Optional Text
  pub ssh_private_key : Optional Text
  pub become_method : Optional BecomeMethod
  pub become_password : Optional Text
  pub reset_host_key : Optional Bool
  pub site_id : Optional Text
  pub is_enabled : Optional Bool
  pub notes : Optional Text

unfoldable pub device_update_json : DeviceUpdate → Fields
device_update_json p = opt Json.text "name" p.name (
    opt Json.text "host" p.host (
      opt Json.number "port" p.port (
        opt Json.number "ssh_port" p.ssh_port (
          opt device_transport_json "transport" p.transport (
            opt Json.boolean "verify_tls" p.verify_tls (
              opt Json.text "username" p.username (
                opt Json.text "password" p.password (
                  opt Json.text "api_key" p.api_key (
                    opt Json.text "ssh_private_key" p.ssh_private_key (
                      opt become_method_json "become_method" p.become_method (
                        opt Json.text "become_password" p.become_password (
                          opt Json.boolean "reset_host_key" p.reset_host_key (
                            opt Json.text "site_id" p.site_id (
                              opt Json.boolean "is_enabled" p.is_enabled
                                (opt Json.text "notes" p.notes Fields.end)))))))))))))))

unfoldable pub list_devices : Env → Option Text → Endpoint
list_devices env site_id =
    bare_endpoint
      (with_search (text_param "site_id" site_id) (call env Method.get (codes "devices")))

unfoldable pub get_device : Env → Text → Endpoint
get_device env id = bare_endpoint (call env Method.get (concat (codes "devices/" ∷ id ∷ [])))

unfoldable pub create_device : Env → DeviceCreate → Endpoint
create_device env payload =
    json_endpoint (with_json (device_create_json payload) (call env Method.post (codes "devices")))

unfoldable pub update_device : Env → Text → DeviceUpdate → Endpoint
update_device env id payload = json_endpoint (
    with_json (device_update_json payload)
      (call env Method.patch (concat (codes "devices/" ∷ id ∷ []))))

unfoldable pub delete_device : Env → Text → Endpoint
delete_device env id = void_endpoint (call env Method.delete (concat (codes "devices/" ∷ id ∷ [])))

unfoldable pub test_device_connection : Env → Text → Endpoint
test_device_connection env id =
    bare_endpoint
      (call env Method.post (concat (codes "devices/" ∷ id ∷ codes "/test-connection" ∷ [])))

unfoldable pub reboot_device : Env → Text → Endpoint
reboot_device env id =
    void_endpoint
      (record (call env Method.post (concat (codes "devices/" ∷ id ∷ codes "/reboot" ∷ []))) {
        timeout = 30000;
      })

unfoldable pub rotate_device_ssh_key : Env → Text → Endpoint
rotate_device_ssh_key env device_id =
    json_endpoint
      (record (call env Method.post
        (concat (codes "devices/" ∷ device_id ∷ codes "/rotate-ssh-key" ∷ []))) { timeout = 90000 })
