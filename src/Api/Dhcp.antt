-- ===== src/Api/Dhcp.antt =====
-- frontend/src/lib/dhcp.ts: DHCP pools, servers, networks and leases.
use netfleet.Common.{Option, [], ◌∷◌, Bool, Text, codes}
use netfleet.Json.{Json, Fields}
use netfleet.Payload.{Optional, opt, req, nullable, call, with_json}
use netfleet.Uri.{encode_uri_component}
use netfleet.Session.Client.{Env, Method}
use netfleet.Api.{Endpoint, json_endpoint, void_endpoint, bare_endpoint, concat}

pub record DhcpPoolCreate : Type 0 where
  pub name : Text
  pub ranges : Text
  pub next_pool : Optional Text
  pub comment : Optional Text

unfoldable pub dhcp_pool_create_json : DhcpPoolCreate → Fields
dhcp_pool_create_json p = req "name" (Json.text p.name) (
    req "ranges" (Json.text p.ranges)
      (opt Json.text "next_pool" p.next_pool (opt Json.text "comment" p.comment Fields.end)))

pub record DhcpPoolUpdate : Type 0 where
  pub name : Optional Text
  pub ranges : Optional Text
  pub next_pool : Optional Text
  pub comment : Optional Text

unfoldable pub dhcp_pool_update_json : DhcpPoolUpdate → Fields
dhcp_pool_update_json p = opt Json.text "name" p.name (
    opt Json.text "ranges" p.ranges
      (opt Json.text "next_pool" p.next_pool (opt Json.text "comment" p.comment Fields.end)))

pub record DhcpServerCreate : Type 0 where
  pub name : Text
  pub interface : Text
  pub address_pool : Optional Text
  pub lease_time : Optional Text
  pub authoritative : Optional Text
  pub disabled : Optional Bool
  pub comment : Optional Text

unfoldable pub dhcp_server_create_json : DhcpServerCreate → Fields
dhcp_server_create_json p = req "name" (Json.text p.name) (
    req "interface" (Json.text p.interface) (
      opt Json.text "address_pool" p.address_pool (
        opt Json.text "lease_time" p.lease_time (
          opt Json.text "authoritative" p.authoritative (
            opt Json.boolean "disabled" p.disabled
              (opt Json.text "comment" p.comment Fields.end))))))

pub record DhcpServerUpdate : Type 0 where
  pub name : Optional Text
  pub interface : Optional Text
  pub address_pool : Optional Text
  pub lease_time : Optional Text
  pub authoritative : Optional Text
  pub disabled : Optional Bool
  pub comment : Optional Text

unfoldable pub dhcp_server_update_json : DhcpServerUpdate → Fields
dhcp_server_update_json p = opt Json.text "name" p.name (
    opt Json.text "interface" p.interface (
      opt Json.text "address_pool" p.address_pool (
        opt Json.text "lease_time" p.lease_time (
          opt Json.text "authoritative" p.authoritative (
            opt Json.boolean "disabled" p.disabled
              (opt Json.text "comment" p.comment Fields.end))))))

pub record DhcpNetworkCreate : Type 0 where
  pub address : Text
  pub gateway : Optional Text
  pub netmask : Optional Text
  pub dns_servers : Optional Text
  pub ntp_servers : Optional Text
  pub domain : Optional Text
  pub comment : Optional Text

unfoldable pub dhcp_network_create_json : DhcpNetworkCreate → Fields
dhcp_network_create_json p = req "address" (Json.text p.address) (
    opt Json.text "gateway" p.gateway (
      opt Json.text "netmask" p.netmask (
        opt Json.text "dns_servers" p.dns_servers (
          opt Json.text "ntp_servers" p.ntp_servers
            (opt Json.text "domain" p.domain (opt Json.text "comment" p.comment Fields.end))))))

pub record DhcpNetworkUpdate : Type 0 where
  pub address : Optional Text
  pub gateway : Optional Text
  pub netmask : Optional Text
  pub dns_servers : Optional Text
  pub ntp_servers : Optional Text
  pub domain : Optional Text
  pub comment : Optional Text

unfoldable pub dhcp_network_update_json : DhcpNetworkUpdate → Fields
dhcp_network_update_json p = opt Json.text "address" p.address (
    opt Json.text "gateway" p.gateway (
      opt Json.text "netmask" p.netmask (
        opt Json.text "dns_servers" p.dns_servers (
          opt Json.text "ntp_servers" p.ntp_servers
            (opt Json.text "domain" p.domain (opt Json.text "comment" p.comment Fields.end))))))

unfoldable pub list_dhcp_pools : Env → Text → Endpoint
list_dhcp_pools env device_id =
    bare_endpoint
      (call env Method.get (concat (codes "devices/" ∷ device_id ∷ codes "/dhcp/pools" ∷ [])))

unfoldable pub create_dhcp_pool : Env → Text → DhcpPoolCreate → Endpoint
create_dhcp_pool env device_id payload = json_endpoint (
    with_json (dhcp_pool_create_json payload)
      (call env Method.post (concat (codes "devices/" ∷ device_id ∷ codes "/dhcp/pools" ∷ []))))

unfoldable pub update_dhcp_pool : Env → Text → Text → DhcpPoolUpdate → Endpoint
update_dhcp_pool env device_id pool_id payload = void_endpoint (
    with_json (dhcp_pool_update_json payload) (
      call env Method.patch (
        concat (
          codes "devices/"
          ∷ device_id
          ∷ codes "/dhcp/pools/"
          ∷ encode_uri_component pool_id
          ∷ []))))

unfoldable pub delete_dhcp_pool : Env → Text → Text → Endpoint
delete_dhcp_pool env device_id pool_id = void_endpoint (
    call env Method.delete (
      concat
        (codes "devices/" ∷ device_id ∷ codes "/dhcp/pools/" ∷ encode_uri_component pool_id ∷ [])))

unfoldable pub list_dhcp_servers : Env → Text → Endpoint
list_dhcp_servers env device_id =
    bare_endpoint
      (call env Method.get (concat (codes "devices/" ∷ device_id ∷ codes "/dhcp/servers" ∷ [])))

unfoldable pub create_dhcp_server : Env → Text → DhcpServerCreate → Endpoint
create_dhcp_server env device_id payload = json_endpoint (
    with_json (dhcp_server_create_json payload)
      (call env Method.post (concat (codes "devices/" ∷ device_id ∷ codes "/dhcp/servers" ∷ []))))

unfoldable pub update_dhcp_server : Env → Text → Text → DhcpServerUpdate → Endpoint
update_dhcp_server env device_id server_id payload = void_endpoint (
    with_json (dhcp_server_update_json payload) (
      call env Method.patch (
        concat (
          codes "devices/"
          ∷ device_id
          ∷ codes "/dhcp/servers/"
          ∷ encode_uri_component server_id
          ∷ []))))

unfoldable pub delete_dhcp_server : Env → Text → Text → Endpoint
delete_dhcp_server env device_id server_id = void_endpoint (
    call env Method.delete (
      concat (
        codes "devices/"
        ∷ device_id
        ∷ codes "/dhcp/servers/"
        ∷ encode_uri_component server_id
        ∷ [])))

unfoldable pub list_dhcp_networks : Env → Text → Endpoint
list_dhcp_networks env device_id =
    bare_endpoint
      (call env Method.get (concat (codes "devices/" ∷ device_id ∷ codes "/dhcp/networks" ∷ [])))

unfoldable pub create_dhcp_network : Env → Text → DhcpNetworkCreate → Endpoint
create_dhcp_network env device_id payload = json_endpoint (
    with_json (dhcp_network_create_json payload)
      (call env Method.post (concat (codes "devices/" ∷ device_id ∷ codes "/dhcp/networks" ∷ []))))

unfoldable pub update_dhcp_network : Env → Text → Text → DhcpNetworkUpdate → Endpoint
update_dhcp_network env device_id network_id payload = void_endpoint (
    with_json (dhcp_network_update_json payload) (
      call env Method.patch (
        concat (
          codes "devices/"
          ∷ device_id
          ∷ codes "/dhcp/networks/"
          ∷ encode_uri_component network_id
          ∷ []))))

unfoldable pub delete_dhcp_network : Env → Text → Text → Endpoint
delete_dhcp_network env device_id network_id = void_endpoint (
    call env Method.delete (
      concat (
        codes "devices/"
        ∷ device_id
        ∷ codes "/dhcp/networks/"
        ∷ encode_uri_component network_id
        ∷ [])))

unfoldable pub list_dhcp_leases : Env → Text → Endpoint
list_dhcp_leases env device_id =
    bare_endpoint
      (call env Method.get (concat (codes "devices/" ∷ device_id ∷ codes "/dhcp/leases" ∷ [])))

unfoldable pub make_lease_static : Env → Text → Text → Endpoint
make_lease_static env device_id lease_id = void_endpoint (
    call env Method.post (
      concat (
        codes "devices/"
        ∷ device_id
        ∷ codes "/dhcp/leases/"
        ∷ encode_uri_component lease_id
        ∷ codes "/make-static"
        ∷ [])))

unfoldable pub set_lease_comment : Env → Text → Text → Option Text → Endpoint
set_lease_comment env device_id lease_id comment = void_endpoint (
    with_json (req "comment" (nullable Json.text comment) Fields.end) (
      call env Method.patch (
        concat (
          codes "devices/"
          ∷ device_id
          ∷ codes "/dhcp/leases/"
          ∷ encode_uri_component lease_id
          ∷ codes "/comment"
          ∷ []))))

unfoldable pub delete_lease : Env → Text → Text → Endpoint
delete_lease env device_id lease_id = void_endpoint (
    call env Method.delete (
      concat (
        codes "devices/" ∷ device_id ∷ codes "/dhcp/leases/" ∷ encode_uri_component lease_id ∷ [])))
