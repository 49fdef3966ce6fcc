-- ===== src/Api/Ufw.antt =====
-- frontend/src/lib/ufw.ts: the UFW firewall of a Linux host.
use netfleet.Common.{ℕ, Option, none, some, [], ◌∷◌, Bool, false, Text, codes}
use netfleet.Json.{Json, Fields}
use netfleet.Payload.{Optional, opt, req, call, with_json, with_search, bool_text, spread}
use netfleet.Session.Client.{Env, Method}
use netfleet.Api.{Endpoint, json_endpoint, bare_endpoint, concat}

pub data Action : Type 0 where
  allow deny reject limit : Action

abbrev pub action_json : Action → Json
action_json allow = Json.text (codes "allow")
action_json deny = Json.text (codes "deny")
action_json reject = Json.text (codes "reject")
action_json limit = Json.text (codes "limit")

pub data Direction : Type 0 where
  inbound out fwd : Direction

abbrev pub direction_json : Direction → Json
direction_json inbound = Json.text (codes "in")
direction_json out = Json.text (codes "out")
direction_json fwd = Json.text (codes "fwd")

pub data Protocol : Type 0 where
  tcp udp : Protocol

abbrev pub protocol_json : Protocol → Json
protocol_json tcp = Json.text (codes "tcp")
protocol_json udp = Json.text (codes "udp")

pub record UfwRuleCreate : Type 0 where
  pub action : Action
  pub direction : Direction
  pub from_address : Optional Text
  pub to_address : Optional Text
  pub port : Optional Text
  pub protocol : Optional Protocol
  pub interface : Optional Text
  pub comment : Optional Text
  pub position : Optional ℕ

unfoldable pub ufw_rule_create_json : UfwRuleCreate → Fields
ufw_rule_create_json p = req "action" (action_json p.action) (
    req "direction" (direction_json p.direction) (
      opt Json.text "from_address" p.from_address (
        opt Json.text "to_address" p.to_address (
          opt Json.text "port" p.port (
            opt protocol_json "protocol" p.protocol (
              opt Json.text "interface" p.interface (
                opt Json.text "comment" p.comment
                  (opt Json.number "position" p.position Fields.end))))))))

unfoldable pub get_ufw_status : Env → Text → Endpoint
get_ufw_status env device_id =
    bare_endpoint
      (record (call env Method.get
        (concat (codes "devices/" ∷ device_id ∷ codes "/firewall/ufw" ∷ []))) { timeout = 45000 })

unfoldable pub create_ufw_rule : Env → Text → UfwRuleCreate → Endpoint
create_ufw_rule env device_id rule =
    json_endpoint
      (record (with_json (ufw_rule_create_json rule) (
        call env Method.post
          (concat (codes "devices/" ∷ device_id ∷ codes "/firewall/ufw/rules" ∷ [])))) {
            timeout = 120000;
          })

unfoldable pub delete_ufw_rule : Env → Text → Text → Bool → Endpoint
delete_ufw_rule env device_id spec force =
    json_endpoint
      (record (with_json (req "spec" (Json.text spec) (req "force" (Json.boolean force) Fields.end))
        (call env Method.post
          (concat (codes "devices/" ∷ device_id ∷ codes "/firewall/ufw/rules/delete" ∷ [])))) {
            timeout = 120000;
          })

unfoldable pub move_ufw_rule : Env → Text → Text → ℕ → Bool → Endpoint
move_ufw_rule env device_id spec position force =
    json_endpoint
      (record (with_json
        (req "spec" (Json.text spec)
          (req "position" (Json.number position) (req "force" (Json.boolean force) Fields.end)))
        (call env Method.post
          (concat (codes "devices/" ∷ device_id ∷ codes "/firewall/ufw/rules/move" ∷ [])))) {
            timeout = 120000;
          })

unfoldable pub disable_ufw_rule : Env → Text → Text → Bool → Endpoint
disable_ufw_rule env device_id spec force =
    json_endpoint
      (record (with_json (req "spec" (Json.text spec) (req "force" (Json.boolean force) Fields.end))
        (call env Method.post
          (concat (codes "devices/" ∷ device_id ∷ codes "/firewall/ufw/rules/disable" ∷ [])))) {
            timeout = 120000;
          })

unfoldable pub get_enable_preflight : Env → Text → Endpoint
get_enable_preflight env device_id =
    bare_endpoint
      (record (call env Method.get
        (concat (codes "devices/" ∷ device_id ∷ codes "/firewall/ufw/enable-preflight" ∷ []))) {
          timeout = 45000;
        })

unfoldable pub list_pending_guards : Env → Text → Endpoint
list_pending_guards env device_id =
    bare_endpoint
      (call env Method.get (concat (codes "devices/" ∷ device_id ∷ codes "/firewall/guards" ∷ [])))

unfoldable pub confirm_guard : Env → Text → Text → Endpoint
confirm_guard env device_id guard_id = bare_endpoint (
    call env Method.post (
      concat (
        codes "devices/"
        ∷ device_id
        ∷ codes "/firewall/guards/"
        ∷ guard_id
        ∷ codes "/confirm"
        ∷ [])))

unfoldable pub rollback_guard : Env → Text → Text → Endpoint
rollback_guard env device_id guard_id = bare_endpoint (
    call env Method.post (
      concat (
        codes "devices/"
        ∷ device_id
        ∷ codes "/firewall/guards/"
        ∷ guard_id
        ∷ codes "/rollback"
        ∷ [])))

unfoldable pub edit_ufw_rule : Env → Text → Text → UfwRuleCreate → Bool → Endpoint
edit_ufw_rule env device_id spec rule force =
    json_endpoint
      (record (with_json
        (spread (ufw_rule_create_json rule)
          (req "spec" (Json.text spec) (req "force" (Json.boolean force) Fields.end)))
        (call env Method.post
          (concat (codes "devices/" ∷ device_id ∷ codes "/firewall/ufw/rules/edit" ∷ [])))) {
            timeout = 120000;
          })

unfoldable pub enable_ufw_rule : Env → Text → Text → Bool → Endpoint
enable_ufw_rule env device_id disabled_rule_id force =
    json_endpoint
      (record (with_search ((codes "force", bool_text force) ∷ []) (
        call env Method.post (
          concat (
            codes "devices/"
            ∷ device_id
            ∷ codes "/firewall/ufw/disabled/"
            ∷ disabled_rule_id
            ∷ codes "/enable"
            ∷ [])))) { timeout = 120000 })

-- `opts`: a missing flag counts as false.
pub record EnableOpts : Type 0 where
  pub enabled : Bool
  pub allow_management : Option Bool
  pub force : Option Bool

abbrev or_false : Option Bool → Bool
or_false none = false
or_false (some b) = b

unfoldable pub set_ufw_enabled : Env → Text → EnableOpts → Endpoint
set_ufw_enabled env device_id opts =
    json_endpoint
      (record (with_json
        (req "enabled" (Json.boolean opts.enabled) (
          req "allow_management" (Json.boolean (or_false opts.allow_management))
            (req "force" (Json.boolean (or_false opts.force)) Fields.end)))
        (call env Method.post
          (concat (codes "devices/" ∷ device_id ∷ codes "/firewall/ufw/enabled" ∷ [])))) {
            timeout = 120000;
          })
