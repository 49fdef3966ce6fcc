-- ===== src/Api/Queues.antt =====
-- frontend/src/lib/queues.ts: simple queues.
use netfleet.Common.{[], ◌∷◌, Bool, Text, codes}
use netfleet.Json.{Json, Fields}
use netfleet.Payload.{Optional, opt, req, call, with_json}
use netfleet.Uri.{encode_uri_component}
use netfleet.Session.Client.{Env, Method}
use netfleet.Api.{Endpoint, json_endpoint, void_endpoint, bare_endpoint, concat}

pub record SimpleQueueCreate : Type 0 where
  pub name : Text
  pub target : Optional Text
  pub max_limit : Optional Text
  pub burst_limit : Optional Text
  pub burst_threshold : Optional Text
  pub burst_time : Optional Text
  pub parent : Optional Text
  pub priority : Optional Text
  pub disabled : Optional Bool
  pub comment : Optional Text

unfoldable pub simple_queue_create_json : SimpleQueueCreate → Fields
simple_queue_create_json p = req "name" (Json.text p.name) (
    opt Json.text "target" p.target (
      opt Json.text "max_limit" p.max_limit (
        opt Json.text "burst_limit" p.burst_limit (
          opt Json.text "burst_threshold" p.burst_threshold (
            opt Json.text "burst_time" p.burst_time (
              opt Json.text "parent" p.parent (
                opt Json.text "priority" p.priority (
                  opt Json.boolean "disabled" p.disabled
                    (opt Json.text "comment" p.comment Fields.end)))))))))

unfoldable pub list_simple_queues : Env → Text → Endpoint
list_simple_queues env device_id =
    bare_endpoint
      (call env Method.get (concat (codes "devices/" ∷ device_id ∷ codes "/queues/simple" ∷ [])))

unfoldable pub create_simple_queue : Env → Text → SimpleQueueCreate → Endpoint
create_simple_queue env device_id payload = json_endpoint (
    with_json (simple_queue_create_json payload)
      (call env Method.post (concat (codes "devices/" ∷ device_id ∷ codes "/queues/simple" ∷ []))))

unfoldable pub delete_simple_queue : Env → Text → Text → Endpoint
delete_simple_queue env device_id queue_id = void_endpoint (
    call env Method.delete (
      concat (
        codes "devices/"
        ∷ device_id
        ∷ codes "/queues/simple/"
        ∷ encode_uri_component queue_id
        ∷ [])))

unfoldable pub reset_simple_queue_counters : Env → Text → Text → Endpoint
reset_simple_queue_counters env device_id queue_id = void_endpoint (
    call env Method.post (
      concat (
        codes "devices/"
        ∷ device_id
        ∷ codes "/queues/simple/"
        ∷ encode_uri_component queue_id
        ∷ codes "/reset-counters"
        ∷ [])))
