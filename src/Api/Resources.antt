-- ===== src/Api/Resources.antt =====
-- frontend/src/lib/resources.ts: the resources of a host.
use netfleet.Common.{[], ◌∷◌, Text, codes}
use netfleet.Payload.{call}
use netfleet.Session.Client.{Env, Method}
use netfleet.Api.{Endpoint, bare_endpoint, concat}

unfoldable pub get_resources : Env → Text → Endpoint
get_resources env device_id =
    bare_endpoint
      (record (call env Method.get
        (concat (codes "devices/" ∷ device_id ∷ codes "/resources" ∷ []))) { timeout = 30000 })

unfoldable pub get_disks : Env → Text → Endpoint
get_disks env device_id =
    bare_endpoint
      (record (call env Method.get (concat (codes "devices/" ∷ device_id ∷ codes "/disks" ∷ []))) {
        timeout = 30000;
      })
