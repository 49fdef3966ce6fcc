-- ===== src/Api/RouterSystem.antt =====
-- frontend/src/lib/router-system.ts: clock, NTP and SNMP.
use netfleet.Common.{[], ◌∷◌, Bool, Text, codes}
use netfleet.Json.{Json, Fields}
use netfleet.Payload.{Optional, opt, req, call, with_json}
use netfleet.Uri.{encode_uri_component}
use netfleet.Session.Client.{Env, Method}
use netfleet.Api.{Endpoint, json_endpoint, void_endpoint, bare_endpoint, concat}

pub data NtpMode : Type 0 where
  unicast broadcast multicast manycast : NtpMode

abbrev pub ntp_mode_json : NtpMode → Json
ntp_mode_json unicast = Json.text (codes "unicast")
ntp_mode_json broadcast = Json.text (codes "broadcast")
ntp_mode_json multicast = Json.text (codes "multicast")
ntp_mode_json manycast = Json.text (codes "manycast")

pub data TrapVersion : Type 0 where
  one two three : TrapVersion

abbrev pub trap_version_json : TrapVersion → Json
trap_version_json one = Json.text (codes "1")
trap_version_json two = Json.text (codes "2")
trap_version_json three = Json.text (codes "3")

pub data Security : Type 0 where
  unsecured authorized private : Security

abbrev pub security_json : Security → Json
security_json unsecured = Json.text (codes "none")
security_json authorized = Json.text (codes "authorized")
security_json private = Json.text (codes "private")

pub record NtpUpdate : Type 0 where
  pub enabled : Optional Bool
  pub mode : Optional NtpMode
  pub servers : Optional Text
  pub primary : Optional Text
  pub secondary : Optional Text

unfoldable pub ntp_update_json : NtpUpdate → Fields
ntp_update_json p = opt Json.boolean "enabled" p.enabled (
    opt ntp_mode_json "mode" p.mode (
      opt Json.text "servers" p.servers
        (opt Json.text "primary" p.primary (opt Json.text "secondary" p.secondary Fields.end))))

pub record NtpServerUpdate : Type 0 where
  pub enabled : Optional Bool
  pub broadcast : Optional Bool
  pub multicast : Optional Bool
  pub manycast : Optional Bool

unfoldable pub ntp_server_update_json : NtpServerUpdate → Fields
ntp_server_update_json p = opt Json.boolean "enabled" p.enabled (
    opt Json.boolean "broadcast" p.broadcast (
      opt Json.boolean "multicast" p.multicast (opt Json.boolean "manycast" p.manycast Fields.end)))

pub record DeviceClockUpdate : Type 0 where
  pub time_zone_name : Optional Text
  pub time_zone_autodetect : Optional Bool

unfoldable pub device_clock_update_json : DeviceClockUpdate → Fields
device_clock_update_json p =
    opt Json.text "time_zone_name" p.time_zone_name
      (opt Json.boolean "time_zone_autodetect" p.time_zone_autodetect Fields.end)

pub record SnmpUpdate : Type 0 where
  pub enabled : Optional Bool
  pub contact : Optional Text
  pub location : Optional Text
  pub trap_target : Optional Text
  pub trap_version : Optional TrapVersion

unfoldable pub snmp_update_json : SnmpUpdate → Fields
snmp_update_json p = opt Json.boolean "enabled" p.enabled (
    opt Json.text "contact" p.contact (
      opt Json.text "location" p.location (
        opt Json.text "trap_target" p.trap_target
          (opt trap_version_json "trap_version" p.trap_version Fields.end))))

pub record SnmpCommunityCreate : Type 0 where
  pub name : Text
  pub addresses : Optional Text
  pub security : Optional Security
  pub read_access : Bool
  pub write_access : Bool

unfoldable pub snmp_community_create_json : SnmpCommunityCreate → Fields
snmp_community_create_json p = req "name" (Json.text p.name) (
    opt Json.text "addresses" p.addresses (
      opt security_json "security" p.security (
        req "read_access" (Json.boolean p.read_access)
          (req "write_access" (Json.boolean p.write_access) Fields.end))))

pub record SnmpCommunityUpdate : Type 0 where
  pub name : Optional Text
  pub addresses : Optional Text
  pub security : Optional Security
  pub read_access : Optional Bool
  pub write_access : Optional Bool
  pub disabled : Optional Bool

unfoldable pub snmp_community_update_json : SnmpCommunityUpdate → Fields
snmp_community_update_json p = opt Json.text "name" p.name (
    opt Json.text "addresses" p.addresses (
      opt security_json "security" p.security (
        opt Json.boolean "read_access" p.read_access (
          opt Json.boolean "write_access" p.write_access
            (opt Json.boolean "disabled" p.disabled Fields.end)))))

unfoldable pub get_ntp : Env → Text → Endpoint
get_ntp env device_id =
    bare_endpoint (call env Method.get (concat (codes "devices/" ∷ device_id ∷ codes "/ntp" ∷ [])))

unfoldable pub update_ntp : Env → Text → NtpUpdate → Endpoint
update_ntp env device_id payload = void_endpoint (
    with_json (ntp_update_json payload)
      (call env Method.patch (concat (codes "devices/" ∷ device_id ∷ codes "/ntp" ∷ []))))

unfoldable pub get_ntp_server : Env → Text → Endpoint
get_ntp_server env device_id =
    bare_endpoint
      (call env Method.get (concat (codes "devices/" ∷ device_id ∷ codes "/ntp-server" ∷ [])))

unfoldable pub update_ntp_server : Env → Text → NtpServerUpdate → Endpoint
update_ntp_server env device_id payload = void_endpoint (
    with_json (ntp_server_update_json payload)
      (call env Method.patch (concat (codes "devices/" ∷ device_id ∷ codes "/ntp-server" ∷ []))))

unfoldable pub get_device_clock : Env → Text → Endpoint
get_device_clock env device_id =
    bare_endpoint
      (call env Method.get (concat (codes "devices/" ∷ device_id ∷ codes "/clock" ∷ [])))

unfoldable pub update_device_clock : Env → Text → DeviceClockUpdate → Endpoint
update_device_clock env device_id payload = void_endpoint (
    with_json (device_clock_update_json payload)
      (call env Method.patch (concat (codes "devices/" ∷ device_id ∷ codes "/clock" ∷ []))))

unfoldable pub get_snmp : Env → Text → Endpoint
get_snmp env device_id =
    bare_endpoint (call env Method.get (concat (codes "devices/" ∷ device_id ∷ codes "/snmp" ∷ [])))

unfoldable pub update_snmp : Env → Text → SnmpUpdate → Endpoint
update_snmp env device_id payload = void_endpoint (
    with_json (snmp_update_json payload)
      (call env Method.patch (concat (codes "devices/" ∷ device_id ∷ codes "/snmp" ∷ []))))

unfoldable pub list_snmp_communities : Env → Text → Endpoint
list_snmp_communities env device_id =
    bare_endpoint
      (call env Method.get (concat (codes "devices/" ∷ device_id ∷ codes "/snmp/communities" ∷ [])))

unfoldable pub create_snmp_community : Env → Text → SnmpCommunityCreate → Endpoint
create_snmp_community env device_id payload = json_endpoint (
    with_json (snmp_community_create_json payload) (
      call env Method.post
        (concat (codes "devices/" ∷ device_id ∷ codes "/snmp/communities" ∷ []))))

unfoldable pub delete_snmp_community : Env → Text → Text → Endpoint
delete_snmp_community env device_id id = void_endpoint (
    call env Method.delete (
      concat
        (codes "devices/" ∷ device_id ∷ codes "/snmp/communities/" ∷ encode_uri_component id ∷ [])))

unfoldable pub update_snmp_community : Env → Text → Text → SnmpCommunityUpdate → Endpoint
update_snmp_community env device_id id payload = void_endpoint (
    with_json (snmp_community_update_json payload) (
      call env Method.patch (
        concat (
          codes "devices/"
          ∷ device_id
          ∷ codes "/snmp/communities/"
          ∷ encode_uri_component id
          ∷ []))))
