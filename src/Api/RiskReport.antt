-- ===== src/Api/RiskReport.antt =====
-- frontend/src/lib/risk-report.ts: the risk report of a user.
use netfleet.Common.{[], ◌∷◌, Text, codes}
use netfleet.Payload.{call}
use netfleet.Session.Client.{Env, Method}
use netfleet.Api.{Endpoint, bare_endpoint, concat}

unfoldable pub fetch_risk_report : Env → Text → Endpoint
fetch_risk_report env user_id =
    bare_endpoint
      (call env Method.get (concat (codes "users/" ∷ user_id ∷ codes "/risk-report" ∷ [])))
