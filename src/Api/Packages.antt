-- ===== src/Api/Packages.antt =====
-- frontend/src/lib/packages.ts: the packages of a Linux host.
use netfleet.Common.{List, [], ◌∷◌, Bool, Text, codes}
use netfleet.Json.{Json, Fields}
use netfleet.Payload.{req, texts, call, with_json}
use netfleet.Session.Client.{Env, Method}
use netfleet.Api.{Endpoint, json_endpoint, bare_endpoint, concat}

unfoldable pub get_packages : Env → Text → Endpoint
get_packages env device_id =
    bare_endpoint
      (record (call env Method.get
        (concat (codes "devices/" ∷ device_id ∷ codes "/packages" ∷ []))) { timeout = 90000 })

unfoldable pub list_package_runs : Env → Text → Endpoint
list_package_runs env device_id =
    bare_endpoint
      (call env Method.get (concat (codes "devices/" ∷ device_id ∷ codes "/package-runs" ∷ [])))

unfoldable pub refresh_packages : Env → Text → Endpoint
refresh_packages env device_id =
    json_endpoint (
      call env Method.post (concat (codes "devices/" ∷ device_id ∷ codes "/packages/refresh" ∷ [])))

unfoldable pub upgrade_packages : Env → Text → List Text → Bool → Endpoint
upgrade_packages env device_id packages security_only = json_endpoint (
    with_json
      (req "packages" (Json.array (texts packages))
        (req "security_only" (Json.boolean security_only) Fields.end))
      (call env Method.post
        (concat (codes "devices/" ∷ device_id ∷ codes "/packages/upgrade" ∷ []))))
