-- ===== src/Tunnel/Stale.antt =====
-- What stays in the wizard when the user goes back and takes another device.
use netfleet.Common.{◌≡◌, refl, none, some, List, [], ◌∷◌, true, Text}
use netfleet.Api.SiteToSite.{S2SCreateRequest}
use netfleet.Tunnel.{
  pick, addressing, Wizard, Device, Event, picked_a, next, act, go_next, can_advance, is_option,
  payload, merge_cidrs,
}

abbrev pub acts : List Event → Wizard → Wizard
acts [] w = w
acts (e ∷ es) w = acts es (act e w)

-- If the user comes back to the first step, takes another device A, and goes through the steps
-- without a change, then the request that is applied exposes the networks that were ticked for the
-- former device, now on the new one, and names the former endpoint.
pub acts-stale :
    (w : Wizard) (devices : List Device) (id : Text)
    → w.step ≡ pick
    → w.pending ≡ none
    → is_option w.device_b_id devices id ≡ true
    → can_advance pick (record w { device_a_id = id }) ≡ true
    → can_advance addressing w ≡ true
    → (r : S2SCreateRequest) × ((acts
          (picked_a devices id ∷ next ∷ next ∷ next ∷ next ∷ next ∷ [])
          w).pending
        ≡ some r)
      × (r.a.device_id ≡ id)
      × (r.a.expose_subnets ≡ merge_cidrs w.expose_a w.extra_expose_a)
      × (r.public_endpoint ≡ w.public_endpoint)
unfolding act go_next payload can_advance
acts-stale w devices id here idle option chosen addressed =
    rw (here, idle, option, chosen, addressed) (_, refl, refl, refl, refl)
