-- ===== src/Api/Drivers.antt =====
-- frontend/src/lib/drivers.ts: the drivers.
use netfleet.Common.{codes}
use netfleet.Payload.{call}
use netfleet.Session.Client.{Env, Method}
use netfleet.Api.{Endpoint, bare_endpoint}

unfoldable pub list_drivers : Env → Endpoint
list_drivers env = bare_endpoint (call env Method.get (codes "drivers"))
