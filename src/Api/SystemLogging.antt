-- ===== src/Api/SystemLogging.antt =====
-- frontend/src/lib/system-logging.ts: logging rules and actions.
use netfleet.Common.{ℕ, [], ◌∷◌, Bool, Text, codes}
use netfleet.Json.{Json, Fields}
use netfleet.Payload.{Optional, opt, req, call, with_json}
use netfleet.Uri.{encode_uri_component}
use netfleet.Session.Client.{Env, Method}
use netfleet.Api.{Endpoint, json_endpoint, void_endpoint, bare_endpoint, concat}

pub data LoggingActionTarget : Type 0 where
  memory disk echo remote : LoggingActionTarget

abbrev pub logging_action_target_json : LoggingActionTarget → Json
logging_action_target_json memory = Json.text (codes "memory")
logging_action_target_json disk = Json.text (codes "disk")
logging_action_target_json echo = Json.text (codes "echo")
logging_action_target_json remote = Json.text (codes "remote")

pub record LoggingRuleCreate : Type 0 where
  pub topics : Text
  pub action : Text
  pub prefix : Optional Text
  pub disabled : Optional Bool

unfoldable pub logging_rule_create_json : LoggingRuleCreate → Fields
logging_rule_create_json p = req "topics" (Json.text p.topics) (
    req "action" (Json.text p.action)
      (opt Json.text "prefix" p.prefix (opt Json.boolean "disabled" p.disabled Fields.end)))

pub record LoggingRuleUpdate : Type 0 where
  pub topics : Optional Text
  pub action : Optional Text
  pub prefix : Optional Text
  pub disabled : Optional Bool

unfoldable pub logging_rule_update_json : LoggingRuleUpdate → Fields
logging_rule_update_json p = opt Json.text "topics" p.topics (
    opt Json.text "action" p.action
      (opt Json.text "prefix" p.prefix (opt Json.boolean "disabled" p.disabled Fields.end)))

pub record LoggingActionCreate : Type 0 where
  pub name : Text
  pub target : LoggingActionTarget
  pub remote : Optional Text
  pub remote_port : Optional ℕ
  pub src_address : Optional Text
  pub bsd_syslog : Optional Bool
  pub syslog_facility : Optional Text
  pub syslog_severity : Optional Text
  pub memory_lines : Optional ℕ

unfoldable pub logging_action_create_json : LoggingActionCreate → Fields
logging_action_create_json p = req "name" (Json.text p.name) (
    req "target" (logging_action_target_json p.target) (
      opt Json.text "remote" p.remote (
        opt Json.number "remote_port" p.remote_port (
          opt Json.text "src_address" p.src_address (
            opt Json.boolean "bsd_syslog" p.bsd_syslog (
              opt Json.text "syslog_facility" p.syslog_facility (
                opt Json.text "syslog_severity" p.syslog_severity
                  (opt Json.number "memory_lines" p.memory_lines Fields.end))))))))

unfoldable pub list_logging_rules : Env → Text → Endpoint
list_logging_rules env device_id =
    bare_endpoint
      (call env Method.get (concat (codes "devices/" ∷ device_id ∷ codes "/logging/rules" ∷ [])))

unfoldable pub create_logging_rule : Env → Text → LoggingRuleCreate → Endpoint
create_logging_rule env device_id payload = json_endpoint (
    with_json (logging_rule_create_json payload)
      (call env Method.post (concat (codes "devices/" ∷ device_id ∷ codes "/logging/rules" ∷ []))))

unfoldable pub update_logging_rule : Env → Text → Text → LoggingRuleUpdate → Endpoint
update_logging_rule env device_id rule_id payload = void_endpoint (
    with_json (logging_rule_update_json payload) (
      call env Method.patch (
        concat (
          codes "devices/"
          ∷ device_id
          ∷ codes "/logging/rules/"
          ∷ encode_uri_component rule_id
          ∷ []))))

unfoldable pub delete_logging_rule : Env → Text → Text → Endpoint
delete_logging_rule env device_id rule_id = void_endpoint (
    call env Method.delete (
      concat (
        codes "devices/"
        ∷ device_id
        ∷ codes "/logging/rules/"
        ∷ encode_uri_component rule_id
        ∷ [])))

unfoldable pub list_logging_actions : Env → Text → Endpoint
list_logging_actions env device_id =
    bare_endpoint
      (call env Method.get (concat (codes "devices/" ∷ device_id ∷ codes "/logging/actions" ∷ [])))

unfoldable pub create_logging_action : Env → Text → LoggingActionCreate → Endpoint
create_logging_action env device_id payload = json_endpoint (
    with_json (logging_action_create_json payload) (
      call env Method.post (concat (codes "devices/" ∷ device_id ∷ codes "/logging/actions" ∷ []))))

unfoldable pub delete_logging_action : Env → Text → Text → Endpoint
delete_logging_action env device_id action_id = void_endpoint (
    call env Method.delete (
      concat (
        codes "devices/"
        ∷ device_id
        ∷ codes "/logging/actions/"
        ∷ encode_uri_component action_id
        ∷ [])))
