-- ===== src/Api/Updates.antt =====
-- frontend/src/lib/updates.ts: the updates of NetFleet itself.
use netfleet.Common.{[], ◌∷◌, Bool, true, false, Text, codes, if◌then◌else◌}
use netfleet.Json.{Json, Fields}
use netfleet.Payload.{req, call, with_json, with_search}
use netfleet.Session.Client.{Env, Method}
use netfleet.Api.{Endpoint, json_endpoint, bare_endpoint}

unfoldable pub trigger_update : Env → Text → Bool → Endpoint
trigger_update env version backup =
    json_endpoint
      (record (with_json
        (req "version" (Json.text version) (req "backup" (Json.boolean backup) Fields.end))
        (call env Method.post (codes "system/update"))) { timeout = 30000 })

unfoldable pub get_update_status : Env → Bool → Endpoint
get_update_status env force =
    bare_endpoint
      (record (with_search (if force then (codes "force", codes "true") ∷ [] else [])
        (call env Method.get (codes "system/update/status"))) {
          timeout = if force then 30000 else 15000;
        })

pub data UpdateState : Type 0 where
  idle checking backing_up pulling recreating health_checking success failed : UpdateState

-- The states in which a job runs.
unfoldable pub is_in_progress : UpdateState → Bool
is_in_progress idle = false
is_in_progress checking = false
is_in_progress backing_up = true
is_in_progress pulling = true
is_in_progress recreating = true
is_in_progress health_checking = true
is_in_progress success = false
is_in_progress failed = false
