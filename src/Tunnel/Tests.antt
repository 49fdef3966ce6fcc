-- ===== src/Tunnel/Tests.antt =====
-- The wizard from its first step to its request, and its theorems at inputs that meet their hypotheses.
use netfleet.Common.{
  Text, ◌≡◌, refl, some, List, [], ◌∷◌, true, ◌||◌, codes, text_eq, is_space, trim, trim_start,
  trim_end, split_by, has, add, delete, Distinct,
}
use netfleet.Api.SiteToSite.{S2SCreateRequest}
use netfleet.Tunnel.{
  Wizard, Device, Event, picked_a, picked_b, typed_endpoint, ticked_a, typed_extra_a, next, start,
  act, go_next, go_back, can_advance, is_option, payload, merge_cidrs, words, trimmed, add_each,
  toggle_picks,
}
use netfleet.Tunnel.Networks.{Reads, has-merge_cidrs}
use netfleet.Tunnel.Fit.{IsFit}
use netfleet.Tunnel.Applying.{Reach, opened, acted, Reach-IsFit}
use netfleet.Tunnel.Stale.{acts, acts-stale}

abbrev routers : List Device
routers =
    record { id = codes "r1"; vendor = codes "mikrotik" }
    ∷ record { id = codes "r2"; vendor = codes "mikrotik" }
    ∷ record { id = codes "r3"; vendor = codes "mikrotik" }
    ∷ []

abbrev filling : List Event
filling =
    picked_a routers (codes "r1")
    ∷ picked_b routers (codes "r2")
    ∷ next
    ∷ typed_endpoint (codes "a.example")
    ∷ next
    ∷ ticked_a (codes "10.1.0.0/24") true
    ∷ typed_extra_a (codes " 10.2.0.0/24,10.1.0.0/24")
    ∷ []

runs : Unit {0}
unfolding text_eq is_space trim trim_start trim_end split_by has add delete start act go_next
    go_back can_advance is_option payload merge_cidrs words trimmed add_each toggle_picks
runs = tt

abbrev filled_in : Wizard
filled_in = acts filling start

exposed :
    merge_cidrs filled_in.expose_a filled_in.extra_expose_a
    ≡ codes "10.1.0.0/24" ∷ codes "10.2.0.0/24" ∷ []
unfolding runs
exposed = refl

has-merge_cidrs_example :
    (ws : List Text) × Reads (codes "b, a") ws
    × ((x : Text)
        → has text_eq x (merge_cidrs (codes "a" ∷ []) (codes "b, a"))
          ≡ (has text_eq x (codes "a" ∷ []) || has text_eq x ws))
    × Distinct text_eq (merge_cidrs (codes "a" ∷ []) (codes "b, a"))
has-merge_cidrs_example = has-merge_cidrs (codes "a" ∷ []) (codes "b, a")

abbrev applying : Wizard
applying = act next (act next (act next filled_in))

Reach-IsFit_example : IsFit (payload filled_in)
unfolding runs
Reach-IsFit_example = Reach-IsFit applying (payload filled_in) reached refl
  where
    reached : Reach applying
    reached = acted next (
        acted next (
          acted next (
            acted (typed_extra_a (codes " 10.2.0.0/24,10.1.0.0/24")) (
              acted (ticked_a (codes "10.1.0.0/24") true) (
                acted next (
                  acted (typed_endpoint (codes "a.example")) (
                    acted next (
                      acted (picked_b routers (codes "r2"))
                        (acted (picked_a routers (codes "r1")) opened)))))))))

acts-stale_example :
    let w = record filled_in { step = netfleet.Tunnel.Step.pick } in
    (r : S2SCreateRequest) × ((acts
        (picked_a routers (codes "r3") ∷ next ∷ next ∷ next ∷ next ∷ next ∷ [])
        w).pending
      ≡ some r)
    × (r.a.device_id ≡ codes "r3")
    × (r.a.expose_subnets ≡ merge_cidrs w.expose_a w.extra_expose_a)
    × (r.public_endpoint ≡ w.public_endpoint)
unfolding runs
acts-stale_example =
    acts-stale (record filled_in { step = netfleet.Tunnel.Step.pick }) routers (codes "r3") refl
      refl refl refl refl
