-- ===== src/Tunnel/Fit.antt =====
-- A wizard that may go on from its first two steps asks for a request that is fit.
use netfleet.Common.{
  ◌≡◌, ◌≢◌, ◌≤◌, [], ◌∷◌, ◌++◌, true, arith, Text, codes, text_eq, text_eq_iff, trim, Distinct,
}
use netfleet.Json.{print}
use netfleet.Api.SiteToSite.{S2SSide, S2SCreateRequest}
use netfleet.Tunnel.Networks.{merge_cidrs-Distinct}
use netfleet.Tunnel.{pick, addressing, Wizard, filled, can_advance, payload}

abbrev pub IsFilled : Text → Type 0
IsFilled t = t ≢ []

-- One end of a tunnel: a device, a name that is not blank, and every network once.
pub record IsFitSide (s : S2SSide) : Type 0 where
  pub device : IsFilled s.device_id
  pub named : IsFilled (trim s.interface_name)
  pub networks : Distinct text_eq s.expose_subnets

pub record IsFit (r : S2SCreateRequest) : Type 0 where
  pub a : IsFitSide r.a
  pub b : IsFitSide r.b
  pub two_devices : r.a.device_id ≢ r.b.device_id
  pub two_addresses : r.a.tunnel_cidr ≢ r.b.tunnel_cidr
  pub port : 1 ≤ r.listen_port
  pub endpoint : IsFilled (trim r.public_endpoint)

filled-IsFilled : (t : Text) → filled t ≡ true → IsFilled t
unfolding text_eq
filled-IsFilled [] h e = absurd (ground arith)
filled-IsFilled (c ∷ t) h e = cc

append-cancel : (s t u : Text) → s ++ t ≡ s ++ u → t ≡ u
append-cancel [] t u e = e
append-cancel (c ∷ s) t u e = append-cancel s t u cc

-- The two hosts of a tunnel's network have different addresses.
two_hosts : (b t : Text) → b ++ (codes ".1/" ++ t) ≢ b ++ (codes ".2/" ++ t)
two_hosts b t e =
    let hosts = append-cancel b (codes ".1/" ++ t) (codes ".2/" ++ t) e in absurd (ground arith)

-- The devices of a wizard that may go on from the first step.
chosen-devices :
    (w : Wizard)
    → can_advance pick w ≡ true
    → IsFilled w.device_a_id × IsFilled w.device_b_id × (w.device_a_id ≢ w.device_b_id)
unfolding can_advance
chosen-devices w h = (
  filled-IsFilled w.device_a_id (ground arith),
  filled-IsFilled w.device_b_id (ground arith),
  λ e. absurd (ground (arith, (text_eq_iff w.device_a_id w.device_b_id).1 e)),
)

-- The fields of a wizard that may go on from the second step.
pub addressed-fields :
    (w : Wizard)
    → can_advance addressing w ≡ true
    → IsFilled (trim w.iface_a)
      × IsFilled (trim w.iface_b)
      × IsFilled (trim w.public_endpoint)
      × (1 ≤ w.listen_port)
unfolding can_advance
addressed-fields w h = (
  filled-IsFilled (trim w.iface_a) (ground arith),
  filled-IsFilled (trim w.iface_b) (ground arith),
  filled-IsFilled (trim w.public_endpoint) (ground arith),
  ground arith,
)

-- What is asked for makes the request fit.
pub payload-IsFit :
    (w : Wizard) → can_advance pick w ≡ true → can_advance addressing w ≡ true → IsFit (payload w)
unfolding payload
payload-IsFit w chosen addressed =
    let (a, b, apart) = chosen-devices w chosen in
    let (name_a, name_b, endpoint, port) = addressed-fields w addressed in
    record {
      a = record {
        device = a;
        named = name_a;
        networks = merge_cidrs-Distinct w.expose_a w.extra_expose_a;
      };
      b = record {
        device = b;
        named = name_b;
        networks = merge_cidrs-Distinct w.expose_b w.extra_expose_b;
      };
      two_devices = apart;
      two_addresses = two_hosts w.tunnel_base (print w.prefix);
      port = port;
      endpoint = endpoint;
    }
