-- ===== src/Api/Network.antt =====
-- frontend/src/lib/network.ts: routes, neighbours, interfaces and VLANs.
use netfleet.Common.{ℕ, Option, [], ◌∷◌, Bool, Text, codes}
use netfleet.Json.{Json, Fields}
use netfleet.Payload.{Optional, opt, req, nullable, call, with_json}
use netfleet.Uri.{encode_uri_component}
use netfleet.Session.Client.{Env, Method}
use netfleet.Api.{Endpoint, json_endpoint, void_endpoint, bare_endpoint, concat}

pub record IpRouteCreate : Type 0 where
  pub dst_address : Text
  pub gateway : Optional Text
  pub distance : Optional ℕ
  pub routing_table : Optional Text
  pub pref_src : Optional Text
  pub disabled : Optional Bool
  pub comment : Optional Text

unfoldable pub ip_route_create_json : IpRouteCreate → Fields
ip_route_create_json p = req "dst_address" (Json.text p.dst_address) (
    opt Json.text "gateway" p.gateway (
      opt Json.number "distance" p.distance (
        opt Json.text "routing_table" p.routing_table (
          opt Json.text "pref_src" p.pref_src (
            opt Json.boolean "disabled" p.disabled
              (opt Json.text "comment" p.comment Fields.end))))))

pub record NeighborDiscovery : Type 0 where
  pub discover_interface_list : Option Text
  pub protocols : Option Text

unfoldable pub neighbor_discovery_json : NeighborDiscovery → Fields
neighbor_discovery_json p =
    req "discover_interface_list" (nullable Json.text p.discover_interface_list)
      (req "protocols" (nullable Json.text p.protocols) Fields.end)

pub record VlanCreate : Type 0 where
  pub name : Text
  pub interface : Text
  pub vlan_id : ℕ
  pub mtu : Optional ℕ
  pub comment : Optional Text

unfoldable pub vlan_create_json : VlanCreate → Fields
vlan_create_json p = req "name" (Json.text p.name) (
    req "interface" (Json.text p.interface) (
      req "vlan_id" (Json.number p.vlan_id)
        (opt Json.number "mtu" p.mtu (opt Json.text "comment" p.comment Fields.end))))

unfoldable pub reset_interface_counters : Env → Text → Text → Endpoint
reset_interface_counters env device_id interface_name = void_endpoint (
    call env Method.post (
      concat (
        codes "devices/"
        ∷ device_id
        ∷ codes "/interfaces/"
        ∷ encode_uri_component interface_name
        ∷ codes "/reset-counters"
        ∷ [])))

unfoldable pub list_routes : Env → Text → Endpoint
list_routes env device_id =
    bare_endpoint
      (call env Method.get (concat (codes "devices/" ∷ device_id ∷ codes "/routes" ∷ [])))

unfoldable pub create_route : Env → Text → IpRouteCreate → Endpoint
create_route env device_id payload = json_endpoint (
    with_json (ip_route_create_json payload)
      (call env Method.post (concat (codes "devices/" ∷ device_id ∷ codes "/routes" ∷ []))))

unfoldable pub delete_route : Env → Text → Text → Endpoint
delete_route env device_id route_id = void_endpoint (
    call env Method.delete (
      concat
        (codes "devices/" ∷ device_id ∷ codes "/routes/" ∷ encode_uri_component route_id ∷ [])))

unfoldable pub list_arp : Env → Text → Endpoint
list_arp env device_id =
    bare_endpoint (call env Method.get (concat (codes "devices/" ∷ device_id ∷ codes "/arp" ∷ [])))

unfoldable pub list_neighbors : Env → Text → Endpoint
list_neighbors env device_id =
    json_endpoint
      (call env Method.get (concat (codes "devices/" ∷ device_id ∷ codes "/neighbors" ∷ [])))

unfoldable pub get_neighbor_discovery : Env → Text → Endpoint
get_neighbor_discovery env device_id =
    json_endpoint (
      call env Method.get
        (concat (codes "devices/" ∷ device_id ∷ codes "/neighbor-discovery" ∷ [])))

unfoldable pub set_neighbor_discovery : Env → Text → NeighborDiscovery → Endpoint
set_neighbor_discovery env device_id payload = json_endpoint (
    with_json (neighbor_discovery_json payload) (
      call env Method.put
        (concat (codes "devices/" ∷ device_id ∷ codes "/neighbor-discovery" ∷ []))))

unfoldable pub list_bridge_hosts : Env → Text → Endpoint
list_bridge_hosts env device_id =
    bare_endpoint
      (call env Method.get (concat (codes "devices/" ∷ device_id ∷ codes "/bridge-hosts" ∷ [])))

unfoldable pub list_interfaces : Env → Text → Endpoint
list_interfaces env device_id =
    bare_endpoint
      (call env Method.get (concat (codes "devices/" ∷ device_id ∷ codes "/interfaces" ∷ [])))

unfoldable pub list_interface_lists : Env → Text → Endpoint
list_interface_lists env device_id =
    bare_endpoint
      (call env Method.get (concat (codes "devices/" ∷ device_id ∷ codes "/interface-lists" ∷ [])))

unfoldable pub list_interface_list_members : Env → Text → Endpoint
list_interface_list_members env device_id = bare_endpoint (
    call env Method.get
      (concat (codes "devices/" ∷ device_id ∷ codes "/interface-list-members" ∷ [])))

unfoldable pub list_vlans : Env → Text → Endpoint
list_vlans env device_id =
    bare_endpoint
      (call env Method.get (concat (codes "devices/" ∷ device_id ∷ codes "/vlans" ∷ [])))

unfoldable pub create_vlan : Env → Text → VlanCreate → Endpoint
create_vlan env device_id payload = json_endpoint (
    with_json (vlan_create_json payload)
      (call env Method.post (concat (codes "devices/" ∷ device_id ∷ codes "/vlans" ∷ []))))

unfoldable pub delete_vlan : Env → Text → Text → Endpoint
delete_vlan env device_id vlan_id = void_endpoint (
    call env Method.delete
      (concat (codes "devices/" ∷ device_id ∷ codes "/vlans/" ∷ encode_uri_component vlan_id ∷ [])))
