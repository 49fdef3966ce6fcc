-- ===== src/Tunnel.antt =====
-- The wizard for a tunnel between two sites (frontend/src/app/dashboard/wg-s2s/new/page.tsx): its
-- steps, its fields, and the request that it applies.
pub mod Networks
pub mod Fit
pub mod Steps
pub mod Applying
pub mod Stale
mod Tests
use netfleet.Common.{
  ℕ, Option, none, some, List, [], ◌∷◌, ◌++◌, Bool, true, false, not, ◌&&◌, ◌||◌, ◌==◌, ltb, Text,
  codes, text_eq, is_space, trim, split_by, has, add, delete, if◌then◌else◌,
}
use netfleet.Json.{Json, print}
use netfleet.Session.Client.{Result, ok, err}
use netfleet.Api.SiteToSite.{S2SSide, S2SCreateRequest}

pub data Step : Type 0 where
  pick addressing subnets firewall review done : Step

-- What the wizard reads of a device.
pub record Device : Type 0 where
  pub id : Text
  pub vendor : Text

-- `pending` holds what `apply.mutate` was called with, while it runs.
pub record Wizard : Type 0 where
  pub step : Step
  pub device_a_id : Text
  pub device_b_id : Text
  pub tunnel_base : Text
  pub prefix : ℕ
  pub iface_a : Text
  pub iface_b : Text
  pub listen_port : ℕ
  pub public_endpoint : Text
  pub comment_tag : Text
  pub keepalive : ℕ
  pub expose_a : List Text
  pub expose_b : List Text
  pub extra_expose_a : Text
  pub extra_expose_b : Text
  pub open_firewall_a : Bool
  pub create_forward_rules : Bool
  pub create_routes : Bool
  pub pending : Option S2SCreateRequest

unfoldable pub start : Wizard
start = record {
  step = pick;
  device_a_id = [];
  device_b_id = [];
  tunnel_base = codes "10.99.0";
  prefix = 30;
  iface_a = codes "wg-to-b";
  iface_b = codes "wg-to-a";
  listen_port = 51820;
  public_endpoint = [];
  comment_tag = codes "site-to-site-1";
  keepalive = 25;
  expose_a = [];
  expose_b = [];
  extra_expose_a = [];
  extra_expose_b = [];
  open_firewall_a = true;
  create_forward_rules = true;
  create_routes = true;
  pending = none;
}

abbrev pub filled : Text → Bool
filled t = not (text_eq t [])

unfoldable pub toggle_picks : List Text → Text → Bool → List Text
unfolding add delete
toggle_picks set val on = if on then add text_eq val set else delete text_eq val set

-- The texts of a list, trimmed and without the empty ones.
unfoldable pub trimmed : List Text → List Text
unfolding trim
trimmed [] = []
trimmed (w ∷ ws) = let rest = trimmed ws in if filled (trim w) then trim w ∷ rest else rest

-- `extra.split(/[,\s]+/).map((s) => s.trim()).filter(Boolean)`. A run of separators leaves empty
-- texts between them here, which the filter drops.
unfoldable pub words : Text → List Text
unfolding trimmed split_by is_space
words extra = trimmed (split_by (λ c. c == b',' || is_space c) extra)

unfoldable pub add_each : List Text → List Text → List Text
unfolding add
add_each [] seen = seen
add_each (c ∷ cs) seen = add_each cs (add text_eq c seen)

unfoldable pub merge_cidrs : List Text → Text → List Text
unfolding add_each words
merge_cidrs picks extra = add_each (words extra) (add_each picks [])

unfoldable pub can_advance : Step → Wizard → Bool
unfolding trim
can_advance pick w =
    filled w.device_a_id && filled w.device_b_id && not (text_eq w.device_a_id w.device_b_id)
can_advance addressing w =
    filled (trim w.iface_a)
    && filled (trim w.iface_b)
    && filled (trim w.tunnel_base)
    && filled (trim w.public_endpoint)
    && ltb 0 w.listen_port
can_advance _ w = true

-- `${tunnelBase}.1/${prefix}`
abbrev tunnel_cidr : Text → Wizard → Text
tunnel_cidr host w = w.tunnel_base ++ (host ++ print w.prefix)

unfoldable pub payload : Wizard → S2SCreateRequest
payload w = record {
  a = record {
    device_id = w.device_a_id;
    interface_name = w.iface_a;
    tunnel_cidr = tunnel_cidr (codes ".1/") w;
    expose_subnets = merge_cidrs w.expose_a w.extra_expose_a;
  };
  b = record {
    device_id = w.device_b_id;
    interface_name = w.iface_b;
    tunnel_cidr = tunnel_cidr (codes ".2/") w;
    expose_subnets = merge_cidrs w.expose_b w.extra_expose_b;
  };
  listen_port = w.listen_port;
  public_endpoint = w.public_endpoint;
  comment_tag = w.comment_tag;
  open_firewall_on_a = w.open_firewall_a;
  create_forward_rules = w.create_forward_rules;
  create_routes = w.create_routes;
  persistent_keepalive = w.keepalive;
}

-- The options of a `DevicePick`: none, or a router that is not excluded.
unfoldable pub is_option : Text → List Device → Text → Bool
is_option exclude_id [] id = text_eq id []
is_option exclude_id (d ∷ devices) id =
    let more = is_option exclude_id devices id in
    if not (text_eq d.id exclude_id) && text_eq d.vendor (codes "mikrotik") && text_eq d.id id
    then true
    else more

-- What the user does, on the devices of the moment, and the ends of calls. `suggested` is the effect
-- on the suggestions for the endpoint, `applied` the end of `apply`.
pub data Event : Type 0 where
  picked_a picked_b : List Device → Text → Event
  typed_base typed_iface_a typed_iface_b typed_endpoint typed_comment : Text → Event
  typed_port typed_keepalive picked_prefix : ℕ → Event
  suggested : List Text → Event
  ticked_a ticked_b : Text → Bool → Event
  typed_extra_a typed_extra_b : Text → Event
  ticked_firewall ticked_forward ticked_routes : Bool → Event
  next back : Event
  applied : Result Json → Event

-- A handler of one step's view.
abbrev pub is_at : Step → Step → Bool
is_at pick pick = true
is_at addressing addressing = true
is_at subnets subnets = true
is_at firewall firewall = true
is_at review review = true
is_at done done = true
is_at s t = false

abbrev pub at : Step → Wizard → Wizard → Wizard
at s w w' = if is_at s w.step then w' else w

-- `apply.mutate()`, disabled while it is pending.
abbrev pub mutate : Option S2SCreateRequest → Wizard → Wizard
mutate none w = record w { pending = some (payload w) }
mutate (some r) w = w

unfoldable pub go_next : Step → Wizard → Wizard
unfolding can_advance
go_next pick w = if can_advance pick w then record w { step = addressing } else w
go_next addressing w = if can_advance addressing w then record w { step = subnets } else w
go_next subnets w = record w { step = firewall }
go_next firewall w = record w { step = review }
go_next review w = mutate w.pending w
go_next done w = w

unfoldable pub go_back : Step → Wizard → Wizard
go_back pick w = w
go_back addressing w = record w { step = pick }
go_back subnets w = record w { step = addressing }
go_back firewall w = record w { step = subnets }
go_back review w = record w { step = firewall }
go_back done w = w

abbrev pub first_of : List Text → Wizard → Wizard
first_of [] w = w
first_of (e ∷ more) w = if filled w.public_endpoint then w else record w { public_endpoint = e }

-- `onSuccess` and `onError`.
abbrev pub end_apply : Option S2SCreateRequest → Result Json → Wizard → Wizard
end_apply none r w = w
end_apply (some p) (ok created) w = record w { pending = none; step = done }
end_apply (some p) (err e) w = record w { pending = none }

unfoldable pub act : Event → Wizard → Wizard
unfolding go_next go_back toggle_picks is_option
act (picked_a devices id) w =
    at pick w (if is_option w.device_b_id devices id then record w { device_a_id = id } else w)
act (picked_b devices id) w =
    at pick w (if is_option w.device_a_id devices id then record w { device_b_id = id } else w)
act (typed_base t) w = at addressing w (record w { tunnel_base = t })
act (typed_iface_a t) w = at addressing w (record w { iface_a = t })
act (typed_iface_b t) w = at addressing w (record w { iface_b = t })
act (typed_endpoint t) w = at addressing w (record w { public_endpoint = t })
act (typed_comment t) w = at addressing w (record w { comment_tag = t })
act (typed_port n) w = at addressing w (record w { listen_port = n })
act (typed_keepalive n) w = at addressing w (record w { keepalive = n })
act (picked_prefix n) w = at addressing w (record w { prefix = n })
act (suggested addresses) w = first_of addresses w
act (ticked_a c on) w = at subnets w (record w { expose_a = toggle_picks w.expose_a c on })
act (ticked_b c on) w = at subnets w (record w { expose_b = toggle_picks w.expose_b c on })
act (typed_extra_a t) w = at subnets w (record w { extra_expose_a = t })
act (typed_extra_b t) w = at subnets w (record w { extra_expose_b = t })
act (ticked_firewall on) w = at firewall w (record w { open_firewall_a = on })
act (ticked_forward on) w = at firewall w (record w { create_forward_rules = on })
act (ticked_routes on) w = at firewall w (record w { create_routes = on })
act next w = go_next w.step w
act back w = go_back w.step w
act (applied r) w = end_apply w.pending r w
