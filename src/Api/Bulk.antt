-- ===== src/Api/Bulk.antt =====
-- frontend/src/lib/bulk.ts: changes on many devices at once.
use netfleet.Common.{ℕ, List, Bool, Text, codes}
use netfleet.Json.{Json, Fields}
use netfleet.Payload.{Optional, opt, req, texts, call, with_json}
use netfleet.Session.Client.{Env, Method}
use netfleet.Api.{Endpoint, json_endpoint}

pub record BulkAddressListAddRequest : Type 0 where
  pub device_ids : List Text
  pub list_name : Text
  pub address : Text
  pub timeout : Optional Text
  pub comment : Optional Text

unfoldable pub bulk_address_list_add_request_json : BulkAddressListAddRequest → Fields
bulk_address_list_add_request_json p = req "device_ids" (Json.array (texts p.device_ids)) (
    req "list_name" (Json.text p.list_name) (
      req "address" (Json.text p.address)
        (opt Json.text "timeout" p.timeout (opt Json.text "comment" p.comment Fields.end))))

pub record BulkFilterRule : Type 0 where
  pub chain : Text
  pub action : Text
  pub src_address : Optional Text
  pub dst_address : Optional Text
  pub src_address_list : Optional Text
  pub dst_address_list : Optional Text
  pub protocol : Optional Text
  pub src_port : Optional Text
  pub dst_port : Optional Text
  pub in_interface : Optional Text
  pub out_interface : Optional Text
  pub connection_state : Optional Text
  pub log : Optional Bool
  pub log_prefix : Optional Text
  pub disabled : Optional Bool
  pub comment : Optional Text

unfoldable pub bulk_filter_rule_json : BulkFilterRule → Fields
bulk_filter_rule_json p = req "chain" (Json.text p.chain) (
    req "action" (Json.text p.action) (
      opt Json.text "src_address" p.src_address (
        opt Json.text "dst_address" p.dst_address (
          opt Json.text "src_address_list" p.src_address_list (
            opt Json.text "dst_address_list" p.dst_address_list (
              opt Json.text "protocol" p.protocol (
                opt Json.text "src_port" p.src_port (
                  opt Json.text "dst_port" p.dst_port (
                    opt Json.text "in_interface" p.in_interface (
                      opt Json.text "out_interface" p.out_interface (
                        opt Json.text "connection_state" p.connection_state (
                          opt Json.boolean "log" p.log (
                            opt Json.text "log_prefix" p.log_prefix (
                              opt Json.boolean "disabled" p.disabled
                                (opt Json.text "comment" p.comment Fields.end)))))))))))))))

pub record BulkFirewallFilterRequest : Type 0 where
  pub device_ids : List Text
  pub rule : BulkFilterRule

unfoldable pub bulk_firewall_filter_request_json : BulkFirewallFilterRequest → Fields
bulk_firewall_filter_request_json p =
    req "device_ids" (Json.array (texts p.device_ids))
      (req "rule" (Json.object (bulk_filter_rule_json p.rule)) Fields.end)

pub record BulkZabbixSnmpSetupRequest : Type 0 where
  pub device_ids : List Text
  pub zabbix_addresses : List Text
  pub address_list_name : Optional Text
  pub firewall_chain : Optional Text
  pub snmp_port : Optional ℕ
  pub community_name : Optional Text
  pub configure_community : Optional Bool
  pub comment_tag : Optional Text

unfoldable pub bulk_zabbix_snmp_setup_request_json : BulkZabbixSnmpSetupRequest → Fields
bulk_zabbix_snmp_setup_request_json p = req "device_ids" (Json.array (texts p.device_ids)) (
    req "zabbix_addresses" (Json.array (texts p.zabbix_addresses)) (
      opt Json.text "address_list_name" p.address_list_name (
        opt Json.text "firewall_chain" p.firewall_chain (
          opt Json.number "snmp_port" p.snmp_port (
            opt Json.text "community_name" p.community_name (
              opt Json.boolean "configure_community" p.configure_community
                (opt Json.text "comment_tag" p.comment_tag Fields.end)))))))

unfoldable pub bulk_reset_device_user_password : Env → List Text → Text → Text → Endpoint
bulk_reset_device_user_password env device_ids username new_password =
    json_endpoint
      (record (with_json
        (req "device_ids" (Json.array (texts device_ids)) (
          req "username" (Json.text username)
            (req "new_password" (Json.text new_password) Fields.end)))
        (call env Method.post (codes "bulk/device-users/password-reset"))) { timeout = 120000 })

unfoldable pub bulk_address_list_add : Env → BulkAddressListAddRequest → Endpoint
bulk_address_list_add env payload =
    json_endpoint
      (record (with_json (bulk_address_list_add_request_json payload)
        (call env Method.post (codes "bulk/firewall/address-list/add"))) { timeout = 120000 })

unfoldable pub bulk_firewall_filter_add : Env → BulkFirewallFilterRequest → Endpoint
bulk_firewall_filter_add env payload =
    json_endpoint
      (record (with_json (bulk_firewall_filter_request_json payload)
        (call env Method.post (codes "bulk/firewall/filter/add"))) { timeout = 120000 })

unfoldable pub bulk_zabbix_snmp_setup : Env → BulkZabbixSnmpSetupRequest → Endpoint
bulk_zabbix_snmp_setup env payload =
    json_endpoint
      (record (with_json (bulk_zabbix_snmp_setup_request_json payload)
        (call env Method.post (codes "bulk/zabbix-snmp/setup"))) { timeout = 180000 })
