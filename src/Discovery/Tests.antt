-- ===== src/Discovery/Tests.antt =====
-- Texts of routers as the network page reads and writes them.
use netfleet.Common.{
  ◌≡◌, refl, ℕ, ◌+◌, some, [], ◌∷◌, true, false, ◌&&◌, arith, Text, codes, text_eq, leb, has, add,
  delete, is_space, trim_start, trim_end, trim, split_by, join, if◌then◌else◌,
}
use netfleet.Api.Network.{NeighborDiscovery}
use netfleet.Discovery.{
  cdp, lldp, mndp, same, add_words, parse_protocols, enabled_protocols, interfaces_on, iface_list,
  names_of, all_protocols, protocol_text, protocols_text, toggled, toggle_protocol,
  all_protocols_on, discovery_off, enable_all,
}
use netfleet.Discovery.Toggling.{KeepsLower, xor, toggle_protocol-parse}

-- `toLowerCase` on the Latin letters.
abbrev small : ℕ → ℕ
small c = if leb b'A' c && leb c b'Z' then c + 32 else c

abbrev ascii_lower : Text → Text
ascii_lower [] = []
ascii_lower (c ∷ t) = small c ∷ ascii_lower t

small_kept : (c : ℕ) → (leb b'a' c && leb c b'z') ≡ true → small c ≡ c
small_kept c h = ground arith

ascii_lower-KeepsLower : KeepsLower ascii_lower
ascii_lower-KeepsLower [] h = refl
ascii_lower-KeepsLower (c ∷ t) h = ground (arith, small_kept c, ascii_lower-KeepsLower t)

abbrev router : NeighborDiscovery
router = record {
  discover_interface_list = some (codes "!dynamic");
  protocols = some (codes "LLDP, mndp,foo");
}

runs : Unit {0}
unfolding add_words has add delete parse_protocols split_by trim is_space trim_start trim_end
    text_eq names_of join protocols_text all_protocols protocol_text interfaces_on toggled
    toggle_protocol all_protocols_on discovery_off enable_all
runs = tt

read :
    (parse_protocols ascii_lower router.protocols ≡ lldp ∷ mndp ∷ [])
    × (toggle_protocol ascii_lower cdp (some router)
        ≡ record router { protocols = some (codes "cdp,lldp,mndp") })
    × (all_protocols_on ascii_lower (some enable_all) ≡ true)
    × (discovery_off ascii_lower (some router) ≡ false)
unfolding runs
read = (refl, refl, refl, refl)

toggle_protocol-parse_example :
    let after = some (toggle_protocol ascii_lower lldp (some router)) in
    (has same lldp (enabled_protocols ascii_lower after)
      ≡ xor true (has same lldp (enabled_protocols ascii_lower (some router))))
    × (interfaces_on (iface_list after) ≡ true)
    × (has same lldp (enabled_protocols ascii_lower (some (toggle_protocol ascii_lower lldp after)))
        ≡ has same lldp (enabled_protocols ascii_lower (some router)))
toggle_protocol-parse_example =
    toggle_protocol-parse ascii_lower lldp lldp (some router) ascii_lower-KeepsLower
