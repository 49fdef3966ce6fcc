-- ===== src/Api/Notifications.antt =====
-- frontend/src/lib/notifications.ts: the notifications.
use netfleet.Common.{codes}
use netfleet.Payload.{call}
use netfleet.Session.Client.{Env, Method}
use netfleet.Api.{Endpoint, void_endpoint, bare_endpoint}

unfoldable pub fetch_notifications : Env → Endpoint
fetch_notifications env = bare_endpoint (call env Method.get (codes "notifications"))

unfoldable pub mark_notifications_read : Env → Endpoint
mark_notifications_read env = void_endpoint (call env Method.post (codes "notifications/mark-read"))
