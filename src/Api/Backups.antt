-- ===== src/Api/Backups.antt =====
-- frontend/src/lib/backups.ts: the backups of a device.
use netfleet.Common.{ℕ, [], ◌∷◌, Text, codes}
use netfleet.Json.{print}
use netfleet.Payload.{call, with_search}
use netfleet.Session.Client.{Env, Method}
use netfleet.Api.{Endpoint, json_endpoint, bare_endpoint, concat}

unfoldable pub trigger_backup : Env → Text → Endpoint
trigger_backup env device_id =
    json_endpoint
      (record (call env Method.post
        (concat (codes "devices/" ∷ device_id ∷ codes "/backups" ∷ []))) { timeout = 120000 })

unfoldable pub restore_backup : Env → Text → Text → Endpoint
restore_backup env device_id backup_id =
    json_endpoint
      (record (call env Method.post (
        concat
          (codes "devices/" ∷ device_id ∷ codes "/backups/" ∷ backup_id ∷ codes "/restore" ∷ []))) {
            timeout = 60000;
          })

unfoldable pub list_device_backups : Env → Text → ℕ → Endpoint
list_device_backups env device_id limit = bare_endpoint (
    with_search ((codes "limit", print limit) ∷ [])
      (call env Method.get (concat (codes "devices/" ∷ device_id ∷ codes "/backups" ∷ []))))

pub data BackupKind : Type 0 where
  backup rsc : BackupKind

abbrev kind_text : BackupKind → Text
kind_text backup = codes "backup"
kind_text rsc = codes "rsc"

unfoldable pub backup_download_url : Text → Text → BackupKind → Text
backup_download_url device_id backup_id kind = concat (
    codes "/api/v1/devices/"
    ∷ device_id
    ∷ codes "/backups/"
    ∷ backup_id
    ∷ codes "/file/"
    ∷ kind_text kind
    ∷ [])
