-- ===== src/Api/Firewall.antt =====
-- frontend/src/lib/firewall.ts: filter rules, NAT rules and the log of a router.
use netfleet.Common.{
  ℕ, Option, none, some, List, [], ◌∷◌, Bool, Text, codes, if◌then◌else◌, ◌++◌, ◌==◌,
}
use netfleet.Json.{Json, Fields, print}
use netfleet.Payload.{Optional, opt, req, nullable, call, with_json, with_search}
use netfleet.Uri.{encode_uri_component}
use netfleet.Session.Client.{Env, Method}
use netfleet.Api.{Endpoint, json_endpoint, void_endpoint, concat}

pub data FilterChain : Type 0 where
  input forward output : FilterChain

abbrev pub filter_chain_json : FilterChain → Json
filter_chain_json input = Json.text (codes "input")
filter_chain_json forward = Json.text (codes "forward")
filter_chain_json output = Json.text (codes "output")

pub data NatChain : Type 0 where
  srcnat dstnat output : NatChain

abbrev pub nat_chain_json : NatChain → Json
nat_chain_json srcnat = Json.text (codes "srcnat")
nat_chain_json dstnat = Json.text (codes "dstnat")
nat_chain_json output = Json.text (codes "output")

pub record FilterRuleCreate : Type 0 where
  pub chain : FilterChain
  pub action : Text
  pub src_address : Optional Text
  pub dst_address : Optional Text
  pub src_address_list : Optional Text
  pub dst_address_list : Optional Text
  pub protocol : Optional Text
  pub src_port : Optional Text
  pub dst_port : Optional Text
  pub in_interface : Optional Text
  pub out_interface : Optional Text
  pub connection_state : Optional Text
  pub log : Optional Bool
  pub log_prefix : Optional Text
  pub disabled : Optional Bool
  pub comment : Optional Text

unfoldable pub filter_rule_create_json : FilterRuleCreate → Fields
filter_rule_create_json p = req "chain" (filter_chain_json p.chain) (
    req "action" (Json.text p.action) (
      opt Json.text "src_address" p.src_address (
        opt Json.text "dst_address" p.dst_address (
          opt Json.text "src_address_list" p.src_address_list (
            opt Json.text "dst_address_list" p.dst_address_list (
              opt Json.text "protocol" p.protocol (
                opt Json.text "src_port" p.src_port (
                  opt Json.text "dst_port" p.dst_port (
                    opt Json.text "in_interface" p.in_interface (
                      opt Json.text "out_interface" p.out_interface (
                        opt Json.text "connection_state" p.connection_state (
                          opt Json.boolean "log" p.log (
                            opt Json.text "log_prefix" p.log_prefix (
                              opt Json.boolean "disabled" p.disabled
                                (opt Json.text "comment" p.comment Fields.end)))))))))))))))

pub record FilterRuleUpdate : Type 0 where
  pub disabled : Optional Bool
  pub log : Optional Bool
  pub log_prefix : Optional Text

unfoldable pub filter_rule_update_json : FilterRuleUpdate → Fields
filter_rule_update_json p =
    opt Json.boolean "disabled" p.disabled
      (opt Json.boolean "log" p.log (opt Json.text "log_prefix" p.log_prefix Fields.end))

pub record NatRuleCreate : Type 0 where
  pub chain : NatChain
  pub action : Text
  pub src_address : Optional Text
  pub dst_address : Optional Text
  pub dst_port : Optional Text
  pub protocol : Optional Text
  pub to_addresses : Optional Text
  pub to_ports : Optional Text
  pub in_interface : Optional Text
  pub out_interface : Optional Text
  pub log : Optional Bool
  pub log_prefix : Optional Text
  pub disabled : Optional Bool
  pub comment : Optional Text

unfoldable pub nat_rule_create_json : NatRuleCreate → Fields
nat_rule_create_json p = req "chain" (nat_chain_json p.chain) (
    req "action" (Json.text p.action) (
      opt Json.text "src_address" p.src_address (
        opt Json.text "dst_address" p.dst_address (
          opt Json.text "dst_port" p.dst_port (
            opt Json.text "protocol" p.protocol (
              opt Json.text "to_addresses" p.to_addresses (
                opt Json.text "to_ports" p.to_ports (
                  opt Json.text "in_interface" p.in_interface (
                    opt Json.text "out_interface" p.out_interface (
                      opt Json.boolean "log" p.log (
                        opt Json.text "log_prefix" p.log_prefix (
                          opt Json.boolean "disabled" p.disabled
                            (opt Json.text "comment" p.comment Fields.end)))))))))))))

pub record NatRuleUpdate : Type 0 where
  pub disabled : Optional Bool
  pub log : Optional Bool
  pub log_prefix : Optional Text

unfoldable pub nat_rule_update_json : NatRuleUpdate → Fields
nat_rule_update_json p =
    opt Json.boolean "disabled" p.disabled
      (opt Json.boolean "log" p.log (opt Json.text "log_prefix" p.log_prefix Fields.end))

unfoldable pub list_filter_rules : Env → Text → Endpoint
list_filter_rules env device_id =
    json_endpoint
      (call env Method.get (concat (codes "devices/" ∷ device_id ∷ codes "/firewall/filter" ∷ [])))

unfoldable pub create_filter_rule : Env → Text → FilterRuleCreate → Endpoint
create_filter_rule env device_id payload = json_endpoint (
    with_json (filter_rule_create_json payload) (
      call env Method.post (concat (codes "devices/" ∷ device_id ∷ codes "/firewall/filter" ∷ []))))

unfoldable pub set_filter_rule_disabled : Env → Text → Text → Bool → Endpoint
set_filter_rule_disabled env device_id rule_id disabled = void_endpoint (
    with_json (req "disabled" (Json.boolean disabled) Fields.end) (
      call env Method.patch (
        concat (
          codes "devices/"
          ∷ device_id
          ∷ codes "/firewall/filter/"
          ∷ encode_uri_component rule_id
          ∷ []))))

unfoldable pub update_filter_rule : Env → Text → Text → FilterRuleUpdate → Endpoint
update_filter_rule env device_id rule_id payload = void_endpoint (
    with_json (filter_rule_update_json payload) (
      call env Method.patch (
        concat (
          codes "devices/"
          ∷ device_id
          ∷ codes "/firewall/filter/"
          ∷ encode_uri_component rule_id
          ∷ []))))

unfoldable pub reset_filter_rule_counters : Env → Text → Text → Endpoint
reset_filter_rule_counters env device_id rule_id = void_endpoint (
    call env Method.post (
      concat (
        codes "devices/"
        ∷ device_id
        ∷ codes "/firewall/filter/"
        ∷ encode_uri_component rule_id
        ∷ codes "/reset-counters"
        ∷ [])))

unfoldable pub delete_filter_rule : Env → Text → Text → Endpoint
delete_filter_rule env device_id rule_id = void_endpoint (
    call env Method.delete (
      concat (
        codes "devices/"
        ∷ device_id
        ∷ codes "/firewall/filter/"
        ∷ encode_uri_component rule_id
        ∷ [])))

unfoldable pub move_filter_rule : Env → Text → Text → Option Text → Endpoint
move_filter_rule env device_id rule_id before_id = void_endpoint (
    with_json (req "before_id" (nullable Json.text before_id) Fields.end) (
      call env Method.post (
        concat (
          codes "devices/"
          ∷ device_id
          ∷ codes "/firewall/filter/"
          ∷ encode_uri_component rule_id
          ∷ codes "/move"
          ∷ []))))

unfoldable pub list_nat_rules : Env → Text → Endpoint
list_nat_rules env device_id =
    json_endpoint
      (call env Method.get (concat (codes "devices/" ∷ device_id ∷ codes "/firewall/nat" ∷ [])))

unfoldable pub create_nat_rule : Env → Text → NatRuleCreate → Endpoint
create_nat_rule env device_id payload = json_endpoint (
    with_json (nat_rule_create_json payload)
      (call env Method.post (concat (codes "devices/" ∷ device_id ∷ codes "/firewall/nat" ∷ []))))

unfoldable pub update_nat_rule : Env → Text → Text → NatRuleUpdate → Endpoint
update_nat_rule env device_id rule_id payload = void_endpoint (
    with_json (nat_rule_update_json payload) (
      call env Method.patch (
        concat (
          codes "devices/"
          ∷ device_id
          ∷ codes "/firewall/nat/"
          ∷ encode_uri_component rule_id
          ∷ []))))

unfoldable pub delete_nat_rule : Env → Text → Text → Endpoint
delete_nat_rule env device_id rule_id = void_endpoint (
    call env Method.delete (
      concat (
        codes "devices/" ∷ device_id ∷ codes "/firewall/nat/" ∷ encode_uri_component rule_id ∷ [])))

unfoldable pub reset_nat_rule_counters : Env → Text → Text → Endpoint
reset_nat_rule_counters env device_id rule_id = void_endpoint (
    call env Method.post (
      concat (
        codes "devices/"
        ∷ device_id
        ∷ codes "/firewall/nat/"
        ∷ encode_uri_component rule_id
        ∷ codes "/reset-counters"
        ∷ [])))

-- `if (options.topics)`: an empty text counts as none.
topics_param : Option Text → List (Text × Text)
topics_param none = []
topics_param (some []) = []
topics_param (some (c ∷ t)) = (codes "topics", c ∷ t) ∷ []

limit_param : Option ℕ → List (Text × Text)
limit_param none = []
limit_param (some n) = if n == 0 then [] else (codes "limit", print n) ∷ []

unfoldable pub list_logs : Env → Text → Option Text → Option ℕ → Endpoint
unfolding topics_param limit_param
list_logs env device_id topics limit = json_endpoint (
    with_search (topics_param topics ++ limit_param limit)
      (call env Method.get (concat (codes "devices/" ∷ device_id ∷ codes "/logs" ∷ []))))
