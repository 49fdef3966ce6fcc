-- ===== src/Api/SiteToSite.antt =====
-- frontend/src/lib/wg-s2s.ts: a WireGuard tunnel between two sites.
use netfleet.Common.{ℕ, List, Bool, Text, codes}
use netfleet.Json.{Json, Fields}
use netfleet.Payload.{req, texts, call, with_json}
use netfleet.Session.Client.{Env, Method}
use netfleet.Api.{Endpoint, json_endpoint}

pub record S2SSide : Type 0 where
  pub device_id : Text
  pub interface_name : Text
  pub tunnel_cidr : Text
  pub expose_subnets : List Text

unfoldable pub s2s_side_json : S2SSide → Fields
s2s_side_json p = req "device_id" (Json.text p.device_id) (
    req "interface_name" (Json.text p.interface_name) (
      req "tunnel_cidr" (Json.text p.tunnel_cidr)
        (req "expose_subnets" (Json.array (texts p.expose_subnets)) Fields.end)))

pub record S2SCreateRequest : Type 0 where
  pub a : S2SSide
  pub b : S2SSide
  pub listen_port : ℕ
  pub public_endpoint : Text
  pub comment_tag : Text
  pub open_firewall_on_a : Bool
  pub create_forward_rules : Bool
  pub create_routes : Bool
  pub persistent_keepalive : ℕ

unfoldable pub s2s_create_request_json : S2SCreateRequest → Fields
s2s_create_request_json p = req "a" (Json.object (s2s_side_json p.a)) (
    req "b" (Json.object (s2s_side_json p.b)) (
      req "listen_port" (Json.number p.listen_port) (
        req "public_endpoint" (Json.text p.public_endpoint) (
          req "comment_tag" (Json.text p.comment_tag) (
            req "open_firewall_on_a" (Json.boolean p.open_firewall_on_a) (
              req "create_forward_rules" (Json.boolean p.create_forward_rules) (
                req "create_routes" (Json.boolean p.create_routes) (
                  req "persistent_keepalive" (Json.number p.persistent_keepalive) Fields.end))))))))

unfoldable pub create_site_to_site : Env → S2SCreateRequest → Endpoint
create_site_to_site env payload = json_endpoint (
    with_json (s2s_create_request_json payload)
      (call env Method.post (codes "wireguard-tunnels/site-to-site")))
