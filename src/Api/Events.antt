-- ===== src/Api/Events.antt =====
-- frontend/src/lib/events.ts: the events.
use netfleet.Common.{ℕ, Option, none, some, List, [], ◌∷◌, Bool, Text, codes, ◌++◌}
use netfleet.Json.{Json, Fields, print}
use netfleet.Payload.{req, texts, text_param, given_param, call, with_json, with_search, bool_text}
use netfleet.Session.Client.{Env, Method}
use netfleet.Api.{Endpoint, json_endpoint, void_endpoint, bare_endpoint}

unfoldable pub events_summary : Env → Endpoint
events_summary env = bare_endpoint (call env Method.get (codes "events/summary"))

unfoldable pub acknowledge_events : Env → List Text → Endpoint
acknowledge_events env ids = void_endpoint (
    with_json (req "ids" (Json.array (texts ids)) Fields.end)
      (call env Method.post (codes "events/acknowledge")))

unfoldable pub events_per_site_summary : Env → Endpoint
events_per_site_summary env = bare_endpoint (call env Method.get (codes "events/per-site-summary"))

pub data Severity : Type 0 where
  critical error warning info : Severity

abbrev severity_text : Severity → Text
severity_text critical = codes "critical"
severity_text error = codes "error"
severity_text warning = codes "warning"
severity_text info = codes "info"

pub record ListEventsParams : Type 0 where
  pub severity : Option (List Severity)
  pub device_id : Option Text
  pub tenant_id : Option Text
  pub site_id : Option Text
  pub acknowledged : Option Bool
  pub since : Option Text
  pub until : Option Text
  pub search : Option Text
  pub limit : Option ℕ
  pub offset : Option ℕ

-- One `severity` for each, since the API wants the key repeated.
abbrev severities : List Severity → List (Text × Text)
severities [] = []
severities (s ∷ rest) = (codes "severity", severity_text s) ∷ severities rest

abbrev severity_params : Option (List Severity) → List (Text × Text)
severity_params none = []
severity_params (some ss) = severities ss

unfoldable pub build_search : ListEventsParams → List (Text × Text)
build_search p =
    severity_params p.severity
    ++ (text_param "device_id" p.device_id
        ++ (text_param "tenant_id" p.tenant_id
            ++ (text_param "site_id" p.site_id
                ++ (given_param bool_text "acknowledged" p.acknowledged
                    ++ (text_param "since" p.since
                        ++ (text_param "until" p.until
                            ++ (text_param "search" p.search
                                ++ (given_param print "limit" p.limit
                                    ++ given_param print "offset" p.offset))))))))

unfoldable pub list_events : Env → ListEventsParams → Endpoint
list_events env params =
    json_endpoint (with_search (build_search params) (call env Method.get (codes "events")))

-- `clearAllEvents` hands out the field `cleared` of the answer.
unfoldable pub clear_all_events : Env → Endpoint
clear_all_events env = json_endpoint (call env Method.post (codes "events/clear"))
