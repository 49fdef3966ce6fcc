-- ===== src/Api/Sites.antt =====
-- frontend/src/lib/sites.ts: the sites.
use netfleet.Common.{Option, [], ◌∷◌, Text, codes}
use netfleet.Payload.{text_param, call, with_search}
use netfleet.Session.Client.{Env, Method}
use netfleet.Api.{Endpoint, void_endpoint, bare_endpoint, concat}

unfoldable pub list_sites : Env → Option Text → Endpoint
list_sites env tenant_id =
    bare_endpoint
      (with_search (text_param "tenant_id" tenant_id) (call env Method.get (codes "sites")))

unfoldable pub get_site : Env → Text → Endpoint
get_site env id = bare_endpoint (call env Method.get (concat (codes "sites/" ∷ id ∷ [])))

unfoldable pub delete_site : Env → Text → Endpoint
delete_site env id = void_endpoint (call env Method.delete (concat (codes "sites/" ∷ id ∷ [])))
