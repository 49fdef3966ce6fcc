-- ===== src/Api/HostHealth.antt =====
-- frontend/src/lib/host-health.ts: the health of the host of NetFleet.
use netfleet.Common.{ℕ, [], ◌∷◌, codes}
use netfleet.Json.{print}
use netfleet.Payload.{call}
use netfleet.Session.Client.{Env, Method}
use netfleet.Api.{Endpoint, json_endpoint, concat}

unfoldable pub fetch_host_health : Env → Endpoint
fetch_host_health env = json_endpoint (call env Method.get (codes "system/host-health"))

unfoldable pub fetch_host_history : Env → ℕ → Endpoint
fetch_host_history env points =
    json_endpoint
      (call env Method.get (concat (codes "system/host-history?points=" ∷ print points ∷ [])))
