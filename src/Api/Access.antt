-- ===== src/Api/Access.antt =====
-- frontend/src/lib/access.ts: who has access to what.
use netfleet.Common.{[], ◌∷◌, Text, codes}
use netfleet.Payload.{call}
use netfleet.Session.Client.{Env, Method}
use netfleet.Api.{Endpoint, bare_endpoint, concat}

unfoldable pub fetch_tenant_access : Env → Text → Endpoint
fetch_tenant_access env tenant_id =
    bare_endpoint (call env Method.get (concat (codes "access/tenant/" ∷ tenant_id ∷ [])))

unfoldable pub fetch_site_access : Env → Text → Endpoint
fetch_site_access env site_id =
    bare_endpoint (call env Method.get (concat (codes "access/site/" ∷ site_id ∷ [])))

unfoldable pub fetch_device_access : Env → Text → Endpoint
fetch_device_access env device_id =
    bare_endpoint (call env Method.get (concat (codes "access/device/" ∷ device_id ∷ [])))

unfoldable pub fetch_user_access_map : Env → Text → Endpoint
fetch_user_access_map env user_id =
    bare_endpoint (call env Method.get (concat (codes "access/user/" ∷ user_id ∷ [])))
