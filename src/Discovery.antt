-- ===== src/Discovery.antt =====
-- The neighbour discovery of a router, on its network page
-- (frontend/src/app/dashboard/devices/[id]/network/page.tsx): the protocols in the router's text, and
-- what the buttons send back.
pub mod Toggling
mod Tests
use netfleet.Common.{
  ℕ, Option, none, some, List, [], ◌∷◌, ◌++◌, Bool, true, false, not, ◌&&◌, ◌||◌, ◌==◌, Text, codes,
  text_eq, has, add, delete, trim, split_by, join, if◌then◌else◌,
}
use netfleet.Api.Network.{NeighborDiscovery}

pub data ProtocolKey : Type 0 where
  cdp lldp mndp : ProtocolKey

unfoldable pub all_protocols : List ProtocolKey
all_protocols = cdp ∷ lldp ∷ mndp ∷ []

unfoldable pub protocol_text : ProtocolKey → Text
protocol_text cdp = codes "cdp"
protocol_text lldp = codes "lldp"
protocol_text mndp = codes "mndp"

abbrev pub same : ProtocolKey → ProtocolKey → Bool
same cdp cdp = true
same lldp lldp = true
same mndp mndp = true
same p q = false

-- A `Set<ProtocolKey>` is a list without repetition.
-- The words that `ALL_PROTOCOLS` has, added to a set one after the other.
abbrev pub add_named : Text → List ProtocolKey → List ProtocolKey
add_named w s =
    if text_eq w (codes "cdp")
    then add same cdp s
    else if text_eq w (codes "lldp")
    then add same lldp s
    else if text_eq w (codes "mndp")
    then add same mndp s
    else s

-- `s.toLowerCase()` is a parameter.
module _ (lower : Text → Text) where
  unfoldable pub add_words : List Text → List ProtocolKey → List ProtocolKey
  unfolding trim
  add_words [] s = s
  add_words (w ∷ ws) s = add_words ws (add_named (lower (trim w)) s)

  unfoldable pub parse_protocols : Option Text → List ProtocolKey
  unfolding add_words split_by
  parse_protocols none = []
  parse_protocols (some []) = []
  parse_protocols (some (c ∷ t)) = add_words (split_by (λ d. d == b',') (c ∷ t)) []

  -- `parseProtocols(discovery?.protocols ?? null)`
  abbrev pub enabled_protocols : Option NeighborDiscovery → List ProtocolKey
  enabled_protocols none = parse_protocols none
  enabled_protocols (some d) = parse_protocols d.protocols

abbrev pub iface_list : Option NeighborDiscovery → Option Text
iface_list none = none
iface_list (some d) = d.discover_interface_list

unfoldable pub interfaces_on : Option Text → Bool
interfaces_on none = false
interfaces_on (some []) = false
interfaces_on (some (c ∷ t)) = not (text_eq (c ∷ t) (codes "none"))

-- `ALL_PROTOCOLS.filter((x) => next.has(x)).join(",") || ""`
unfoldable pub names_of : List ProtocolKey → List ProtocolKey → List Text
names_of next [] = []
names_of next (x ∷ xs) =
    let rest = names_of next xs in if has same x next then protocol_text x ∷ rest else rest

unfoldable pub protocols_text : List ProtocolKey → Text
unfolding names_of all_protocols join
protocols_text next = join (codes ",") (names_of next all_protocols)

unfoldable pub toggled : ProtocolKey → List ProtocolKey → List ProtocolKey
unfolding delete add has
toggled p s = if has same p s then delete same p s else add same p s

module _ (lower : Text → Text) where
  unfoldable pub toggle_protocol : ProtocolKey → Option NeighborDiscovery → NeighborDiscovery
  unfolding toggled interfaces_on protocols_text parse_protocols
  toggle_protocol p discovery = record {
    discover_interface_list =
        if interfaces_on (iface_list discovery) then iface_list discovery else some (codes "all");
    protocols = some (protocols_text (toggled p (enabled_protocols lower discovery)));
  }

  unfoldable pub all_protocols_on : Option NeighborDiscovery → Bool
  unfolding has interfaces_on parse_protocols
  all_protocols_on discovery =
      let on = enabled_protocols lower discovery in
      has same cdp on
      && has same lldp on
      && has same mndp on
      && interfaces_on (iface_list discovery)

  abbrev pub is_empty : List ProtocolKey → Bool
  is_empty [] = true
  is_empty (p ∷ s) = false

  unfoldable pub discovery_off : Option NeighborDiscovery → Bool
  unfolding interfaces_on parse_protocols
  discovery_off discovery =
      not (interfaces_on (iface_list discovery)) || is_empty (enabled_protocols lower discovery)

unfoldable pub enable_all : NeighborDiscovery
enable_all = record {
  discover_interface_list = some (codes "all");
  protocols = some (codes "cdp,lldp,mndp");
}
