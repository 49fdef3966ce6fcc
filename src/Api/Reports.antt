-- ===== src/Api/Reports.antt =====
-- frontend/src/lib/reports.ts: the reports.
use netfleet.Common.{String, Option, some, List, [], ◌∷◌, Text, codes, ◌++◌}
use netfleet.Payload.{text_param, call, with_search}
use netfleet.Session.Client.{Env, Method}
use netfleet.Api.{Endpoint, bare_endpoint}

unfoldable pub user_roles_report : Env → Endpoint
user_roles_report env = bare_endpoint (call env Method.get (codes "reports/user-roles"))

pub record DateRange : Type 0 where
  pub ts_from : Text
  pub ts_to : Text

-- `range`: of the values, all texts, those that are given and not empty.
unfoldable pub range : List (String × Option Text) → List (Text × Text)
range [] = []
range ((key, value) ∷ entries) = text_param key value ++ range entries

abbrev dates : DateRange → List (String × Option Text) → List (String × Option Text)
dates d more = ("ts_from", some d.ts_from) ∷ ("ts_to", some d.ts_to) ∷ more

unfoldable pub user_activity_report : Env → DateRange → Option Text → Endpoint
user_activity_report env d user_id = bare_endpoint (
    with_search (range (dates d (("user_id", user_id) ∷ [])))
      (call env Method.get (codes "reports/user-activity")))

unfoldable pub device_activity_report : Env → DateRange → Text → Endpoint
device_activity_report env d device_id = bare_endpoint (
    with_search (range (dates d (("device_id", some device_id) ∷ [])))
      (call env Method.get (codes "reports/device-activity")))

unfoldable pub secret_access_report : Env → DateRange → Option Text → Endpoint
secret_access_report env d user_id = bare_endpoint (
    with_search (range (dates d (("user_id", user_id) ∷ [])))
      (call env Method.get (codes "reports/secret-access")))

unfoldable pub change_report : Env → DateRange → Option Text → Endpoint
change_report env d section = bare_endpoint (
    with_search (range (dates d (("section", section) ∷ [])))
      (call env Method.get (codes "reports/changes")))
