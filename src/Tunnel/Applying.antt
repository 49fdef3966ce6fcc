-- ===== src/Tunnel/Applying.antt =====
-- Every request that the wizard applies is fit.
use netfleet.Common.{◌≡◌, refl, some}
use netfleet.Api.SiteToSite.{S2SCreateRequest}
use netfleet.Tunnel.{
  subnets, firewall, Wizard, start, can_advance, act, Event, picked_a, picked_b, typed_base,
  typed_iface_a, typed_iface_b, typed_endpoint, typed_comment, typed_port, typed_keepalive,
  picked_prefix, suggested, ticked_a, ticked_b, typed_extra_a, typed_extra_b, ticked_firewall,
  ticked_forward, ticked_routes, next, back, applied, toggle_picks, is_option,
}
use netfleet.Tunnel.Fit.{IsFit}
use netfleet.Tunnel.Steps.{
  IsSound, picked-Ready, picked-IsSound, kept-IsSound, typed-IsSound, first_of-IsSound,
  go_next-IsSound, go_back-IsSound, end_apply-IsSound,
}

act-IsSound : (e : Event) (w : Wizard) → IsSound w → IsSound (act e w)
unfolding act can_advance
act-IsSound (picked_a devices id) w s =
    picked-IsSound w s (is_option w.device_b_id devices id) (record w { device_a_id = id })
      (λ h. record { ready = picked-Ready w.step _ h; fit = s.fit })
act-IsSound (picked_b devices id) w s =
    picked-IsSound w s (is_option w.device_a_id devices id) (record w { device_b_id = id })
      (λ h. record { ready = picked-Ready w.step _ h; fit = s.fit })
act-IsSound (typed_base t) w s = typed-IsSound w s (record w { tunnel_base = t }) refl refl refl
act-IsSound (typed_iface_a t) w s = typed-IsSound w s (record w { iface_a = t }) refl refl refl
act-IsSound (typed_iface_b t) w s = typed-IsSound w s (record w { iface_b = t }) refl refl refl
act-IsSound (typed_endpoint t) w s =
    typed-IsSound w s (record w { public_endpoint = t }) refl refl refl
act-IsSound (typed_comment t) w s = typed-IsSound w s (record w { comment_tag = t }) refl refl refl
act-IsSound (typed_port n) w s = typed-IsSound w s (record w { listen_port = n }) refl refl refl
act-IsSound (typed_keepalive n) w s = typed-IsSound w s (record w { keepalive = n }) refl refl refl
act-IsSound (picked_prefix n) w s = typed-IsSound w s (record w { prefix = n }) refl refl refl
act-IsSound (suggested addresses) w s = first_of-IsSound addresses w s
act-IsSound (ticked_a c on) w s =
    kept-IsSound w s subnets (record w { expose_a = toggle_picks w.expose_a c on }) refl refl refl
      refl
act-IsSound (ticked_b c on) w s =
    kept-IsSound w s subnets (record w { expose_b = toggle_picks w.expose_b c on }) refl refl refl
      refl
act-IsSound (typed_extra_a t) w s =
    kept-IsSound w s subnets (record w { extra_expose_a = t }) refl refl refl refl
act-IsSound (typed_extra_b t) w s =
    kept-IsSound w s subnets (record w { extra_expose_b = t }) refl refl refl refl
act-IsSound (ticked_firewall on) w s =
    kept-IsSound w s firewall (record w { open_firewall_a = on }) refl refl refl refl
act-IsSound (ticked_forward on) w s =
    kept-IsSound w s firewall (record w { create_forward_rules = on }) refl refl refl refl
act-IsSound (ticked_routes on) w s =
    kept-IsSound w s firewall (record w { create_routes = on }) refl refl refl refl
act-IsSound next w s = go_next-IsSound w w.step refl s
act-IsSound back w s = go_back-IsSound w w.step refl s
act-IsSound (applied r) w s = end_apply-IsSound w w.pending r s

-- The wizards that a user can come to.
pub data Reach : Wizard → Type 0 where
  opened : Reach start
  acted : {w : Wizard} → (e : Event) → Reach w → Reach (act e w)

reached-IsSound : (w : Wizard) → Reach w → IsSound w
unfolding start
reached-IsSound w opened = record { ready = tt; fit = λ r e. cc }
reached-IsSound w (acted {w = before} e r) = act-IsSound e before (reached-IsSound before r)

-- Whatever the user does, in whatever order the suggestions and the answers come, the request that is
-- being applied names two different devices, two addresses that differ, an interface on each side
-- and an endpoint that are not blank, a port above 0, and no network twice on a side.
pub Reach-IsFit : (w : Wizard) (r : S2SCreateRequest) → Reach w → w.pending ≡ some r → IsFit r
Reach-IsFit w r reached applying = (reached-IsSound w reached).fit r applying
