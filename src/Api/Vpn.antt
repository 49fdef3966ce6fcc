-- ===== src/Api/Vpn.antt =====
-- frontend/src/lib/vpn.ts: PPP secrets and WireGuard.
use netfleet.Common.{ℕ, Option, none, some, List, [], ◌∷◌, Bool, Text, codes}
use netfleet.Json.{Json, Fields}
use netfleet.Payload.{Optional, opt, req, texts, call, with_json, with_search}
use netfleet.Uri.{encode_uri_component}
use netfleet.Session.Client.{Env, Method}
use netfleet.Api.{Endpoint, json_endpoint, void_endpoint, bare_endpoint, concat}

pub record PppSecretCreate : Type 0 where
  pub name : Text
  pub service : Text
  pub password : Text
  pub profile : Optional Text
  pub local_address : Optional Text
  pub remote_address : Optional Text
  pub comment : Optional Text

unfoldable pub ppp_secret_create_json : PppSecretCreate → Fields
ppp_secret_create_json p = req "name" (Json.text p.name) (
    req "service" (Json.text p.service) (
      req "password" (Json.text p.password) (
        opt Json.text "profile" p.profile (
          opt Json.text "local_address" p.local_address (
            opt Json.text "remote_address" p.remote_address
              (opt Json.text "comment" p.comment Fields.end))))))

pub record WgInterfaceCreate : Type 0 where
  pub name : Text
  pub listen_port : Optional ℕ
  pub private_key : Optional Text
  pub mtu : Optional ℕ
  pub comment : Optional Text

unfoldable pub wg_interface_create_json : WgInterfaceCreate → Fields
wg_interface_create_json p = req "name" (Json.text p.name) (
    opt Json.number "listen_port" p.listen_port (
      opt Json.text "private_key" p.private_key
        (opt Json.number "mtu" p.mtu (opt Json.text "comment" p.comment Fields.end))))

pub record WgPeerCreate : Type 0 where
  pub interface : Text
  pub public_key : Optional Text
  pub preshared_key : Optional Text
  pub allowed_address : Optional Text
  pub endpoint_address : Optional Text
  pub endpoint_port : Optional ℕ
  pub persistent_keepalive : Optional ℕ
  pub comment : Optional Text

unfoldable pub wg_peer_create_json : WgPeerCreate → Fields
wg_peer_create_json p = req "interface" (Json.text p.interface) (
    opt Json.text "public_key" p.public_key (
      opt Json.text "preshared_key" p.preshared_key (
        opt Json.text "allowed_address" p.allowed_address (
          opt Json.text "endpoint_address" p.endpoint_address (
            opt Json.number "endpoint_port" p.endpoint_port (
              opt Json.number "persistent_keepalive" p.persistent_keepalive
                (opt Json.text "comment" p.comment Fields.end)))))))

pub record AddressCreate : Type 0 where
  pub address : Text
  pub interface : Text
  pub comment : Optional Text

unfoldable pub address_create_json : AddressCreate → Fields
address_create_json p =
    req "address" (Json.text p.address)
      (req "interface" (Json.text p.interface) (opt Json.text "comment" p.comment Fields.end))

pub record WgPeerRestrictRequest : Type 0 where
  pub allowed_cidrs : List Text
  pub drop_rest : Bool
  pub comment_tag : Text

unfoldable pub wg_peer_restrict_request_json : WgPeerRestrictRequest → Fields
wg_peer_restrict_request_json p = req "allowed_cidrs" (Json.array (texts p.allowed_cidrs)) (
    req "drop_rest" (Json.boolean p.drop_rest)
      (req "comment_tag" (Json.text p.comment_tag) Fields.end))

unfoldable pub list_ppp_secrets : Env → Text → Endpoint
list_ppp_secrets env device_id =
    bare_endpoint
      (call env Method.get (concat (codes "devices/" ∷ device_id ∷ codes "/ppp-secrets" ∷ [])))

unfoldable pub create_ppp_secret : Env → Text → PppSecretCreate → Endpoint
create_ppp_secret env device_id payload = json_endpoint (
    with_json (ppp_secret_create_json payload)
      (call env Method.post (concat (codes "devices/" ∷ device_id ∷ codes "/ppp-secrets" ∷ []))))

unfoldable pub reset_ppp_secret_password : Env → Text → Text → Text → Endpoint
reset_ppp_secret_password env device_id secret_id new_password = void_endpoint (
    with_json (req "new_password" (Json.text new_password) Fields.end) (
      call env Method.post (
        concat (
          codes "devices/"
          ∷ device_id
          ∷ codes "/ppp-secrets/"
          ∷ encode_uri_component secret_id
          ∷ codes "/password"
          ∷ []))))

unfoldable pub delete_ppp_secret : Env → Text → Text → Endpoint
delete_ppp_secret env device_id secret_id = void_endpoint (
    call env Method.delete (
      concat (
        codes "devices/"
        ∷ device_id
        ∷ codes "/ppp-secrets/"
        ∷ encode_uri_component secret_id
        ∷ [])))

unfoldable pub reveal_ppp_secret : Env → Text → Text → Text → Endpoint
reveal_ppp_secret env device_id secret_id justification = json_endpoint (
    with_json (req "justification" (Json.text justification) Fields.end) (
      call env Method.post (
        concat (
          codes "devices/"
          ∷ device_id
          ∷ codes "/ppp-secrets/"
          ∷ encode_uri_component secret_id
          ∷ codes "/reveal"
          ∷ []))))

unfoldable pub list_wg_interfaces : Env → Text → Endpoint
list_wg_interfaces env device_id = bare_endpoint (
    call env Method.get
      (concat (codes "devices/" ∷ device_id ∷ codes "/wireguard/interfaces" ∷ [])))

unfoldable pub create_wg_interface : Env → Text → WgInterfaceCreate → Endpoint
create_wg_interface env device_id payload = json_endpoint (
    with_json (wg_interface_create_json payload) (
      call env Method.post
        (concat (codes "devices/" ∷ device_id ∷ codes "/wireguard/interfaces" ∷ []))))

unfoldable pub delete_wg_interface : Env → Text → Text → Endpoint
delete_wg_interface env device_id iface_id = void_endpoint (
    call env Method.delete (
      concat (
        codes "devices/"
        ∷ device_id
        ∷ codes "/wireguard/interfaces/"
        ∷ encode_uri_component iface_id
        ∷ [])))

unfoldable pub create_wg_peer : Env → Text → WgPeerCreate → Endpoint
create_wg_peer env device_id payload = json_endpoint (
    with_json (wg_peer_create_json payload) (
      call env Method.post (concat (codes "devices/" ∷ device_id ∷ codes "/wireguard/peers" ∷ []))))

unfoldable pub delete_wg_peer : Env → Text → Text → Endpoint
delete_wg_peer env device_id peer_id = void_endpoint (
    call env Method.delete (
      concat (
        codes "devices/"
        ∷ device_id
        ∷ codes "/wireguard/peers/"
        ∷ encode_uri_component peer_id
        ∷ [])))

unfoldable pub reveal_wg_peer_keys : Env → Text → Text → Text → Endpoint
reveal_wg_peer_keys env device_id peer_id justification = json_endpoint (
    with_json (req "justification" (Json.text justification) Fields.end) (
      call env Method.post (
        concat (
          codes "devices/"
          ∷ device_id
          ∷ codes "/wireguard/peers/"
          ∷ encode_uri_component peer_id
          ∷ codes "/reveal"
          ∷ []))))

unfoldable pub create_ip_address : Env → Text → AddressCreate → Endpoint
create_ip_address env device_id payload = json_endpoint (
    with_json (address_create_json payload)
      (call env Method.post (concat (codes "devices/" ∷ device_id ∷ codes "/addresses" ∷ []))))

unfoldable pub list_wg_endpoint_suggestions : Env → Text → Endpoint
list_wg_endpoint_suggestions env device_id = bare_endpoint (
    call env Method.get
      (concat (codes "devices/" ∷ device_id ∷ codes "/wireguard/-/endpoints-suggested" ∷ [])))

unfoldable pub list_wg_lan_subnets : Env → Text → Endpoint
list_wg_lan_subnets env device_id = bare_endpoint (
    call env Method.get
      (concat (codes "devices/" ∷ device_id ∷ codes "/wireguard/-/lan-subnets-suggested" ∷ [])))

unfoldable pub restrict_wg_peer : Env → Text → Text → WgPeerRestrictRequest → Endpoint
restrict_wg_peer env device_id peer_id payload = json_endpoint (
    with_json (wg_peer_restrict_request_json payload) (
      call env Method.post (
        concat (
          codes "devices/"
          ∷ device_id
          ∷ codes "/wireguard/peers/"
          ∷ encode_uri_component peer_id
          ∷ codes "/restrict"
          ∷ []))))

-- `ifaceName ? { interface: ifaceName } : undefined`
interface_param : Option Text → List (Text × Text)
interface_param none = []
interface_param (some []) = []
interface_param (some (c ∷ t)) = (codes "interface", c ∷ t) ∷ []

unfoldable pub list_wg_peers : Env → Text → Option Text → Endpoint
unfolding interface_param
list_wg_peers env device_id iface_name = bare_endpoint (
    with_search (interface_param iface_name)
      (call env Method.get (concat (codes "devices/" ∷ device_id ∷ codes "/wireguard/peers" ∷ []))))
