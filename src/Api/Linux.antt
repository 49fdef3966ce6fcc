-- ===== src/Api/Linux.antt =====
-- frontend/src/lib/linux.ts: what is read of a Linux host.
use netfleet.Common.{ℕ, [], ◌∷◌, Text, codes}
use netfleet.Json.{print}
use netfleet.Payload.{call, with_search}
use netfleet.Session.Client.{Env, Method}
use netfleet.Api.{Endpoint, bare_endpoint, concat}

unfoldable pub get_interface_configs : Env → Text → Endpoint
get_interface_configs env device_id =
    bare_endpoint
      (record (call env Method.get
        (concat (codes "devices/" ∷ device_id ∷ codes "/interface-configs" ∷ []))) {
          timeout = 40000;
        })

unfoldable pub sync_ntp_now : Env → Text → Endpoint
sync_ntp_now env device_id =
    bare_endpoint
      (record (call env Method.post
        (concat (codes "devices/" ∷ device_id ∷ codes "/ntp/sync" ∷ []))) { timeout = 40000 })

unfoldable pub get_scheduled_jobs : Env → Text → Endpoint
get_scheduled_jobs env device_id =
    bare_endpoint
      (record (call env Method.get
        (concat (codes "devices/" ∷ device_id ∷ codes "/scheduled-jobs" ∷ []))) { timeout = 40000 })

unfoldable pub get_disk_tree : Env → Text → Text → Endpoint
get_disk_tree env device_id path =
    bare_endpoint
      (record (with_search ((codes "path", path) ∷ [])
        (call env Method.get (concat (codes "devices/" ∷ device_id ∷ codes "/disk-tree" ∷ [])))) {
          timeout = 130000;
        })

unfoldable pub get_processes : Env → Text → ℕ → Endpoint
get_processes env device_id limit =
    bare_endpoint
      (record (with_search ((codes "limit", print limit) ∷ [])
        (call env Method.get (concat (codes "devices/" ∷ device_id ∷ codes "/processes" ∷ [])))) {
          timeout = 40000;
        })
