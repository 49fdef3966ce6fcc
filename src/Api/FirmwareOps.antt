-- ===== src/Api/FirmwareOps.antt =====
-- frontend/src/lib/firmware.ts: the firmware of a device.
use netfleet.Common.{ℕ, Option, [], ◌∷◌, Bool, Text, codes}
use netfleet.Json.{Json, Fields}
use netfleet.Payload.{req, nullable, call, with_json}
use netfleet.Session.Client.{Env, Method}
use netfleet.Api.{Endpoint, json_endpoint, bare_endpoint, concat}

pub record AutoUpgradePolicy : Type 0 where
  pub enabled : Bool
  pub window_start_hour : Option ℕ
  pub window_end_hour : Option ℕ

unfoldable pub auto_upgrade_policy_json : AutoUpgradePolicy → Fields
auto_upgrade_policy_json p = req "enabled" (Json.boolean p.enabled) (
    req "window_start_hour" (nullable Json.number p.window_start_hour)
      (req "window_end_hour" (nullable Json.number p.window_end_hour) Fields.end))

unfoldable pub get_fleet_firmware_summary : Env → Endpoint
get_fleet_firmware_summary env = bare_endpoint (call env Method.get (codes "firmware/summary"))

unfoldable pub get_device_firmware : Env → Text → Endpoint
get_device_firmware env device_id =
    bare_endpoint
      (call env Method.get (concat (codes "devices/" ∷ device_id ∷ codes "/firmware" ∷ [])))

unfoldable pub check_device_firmware : Env → Text → Endpoint
check_device_firmware env device_id =
    json_endpoint
      (record (call env Method.post
        (concat (codes "devices/" ∷ device_id ∷ codes "/firmware/check" ∷ []))) { timeout = 60000 })

unfoldable pub get_firmware_upgrade_status : Env → Text → Endpoint
get_firmware_upgrade_status env device_id = bare_endpoint (
    call env Method.get
      (concat (codes "devices/" ∷ device_id ∷ codes "/firmware/upgrade-status" ∷ [])))

unfoldable pub get_auto_upgrade_policy : Env → Text → Endpoint
get_auto_upgrade_policy env device_id =
    bare_endpoint
      (call env Method.get (concat (codes "devices/" ∷ device_id ∷ codes "/firmware/policy" ∷ [])))

unfoldable pub set_auto_upgrade_policy : Env → Text → AutoUpgradePolicy → Endpoint
set_auto_upgrade_policy env device_id policy = json_endpoint (
    with_json (auto_upgrade_policy_json policy)
      (call env Method.put (concat (codes "devices/" ∷ device_id ∷ codes "/firmware/policy" ∷ []))))

pub data FirmwareUpgradeTarget : Type 0 where
  routeros routerboard both : FirmwareUpgradeTarget

abbrev target_json : FirmwareUpgradeTarget → Json
target_json routeros = Json.text (codes "routeros")
target_json routerboard = Json.text (codes "routerboard")
target_json both = Json.text (codes "both")

unfoldable pub trigger_firmware_upgrade : Env → Text → FirmwareUpgradeTarget → Endpoint
trigger_firmware_upgrade env device_id target =
    json_endpoint
      (record (with_json (req "target" (target_json target) Fields.end) (
        call env Method.post
          (concat (codes "devices/" ∷ device_id ∷ codes "/firmware/upgrade" ∷ [])))) {
            timeout = 60000;
          })
