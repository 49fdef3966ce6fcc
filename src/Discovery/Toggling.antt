-- ===== src/Discovery/Toggling.antt =====
-- What a toggle sends is read back as the set that it stands for.
use netfleet.Common.{
  ◌≡◌, refl, ap, sym, subst, ◌∙◌, inl, inr, ◌↔◌, Option, none, some, List, [], ◌∷◌, Bool, true,
  false, not, ◌&&◌, arith, Text, codes, text_eq, all, leb, has, add, has-add, has-delete, is_space,
  trim_start, trim_end, trim, split_by, join, Bool-cases, if◌then◌else◌,
}
use netfleet.Api.Network.{NeighborDiscovery}
use netfleet.Discovery.{
  ProtocolKey, cdp, lldp, mndp, all_protocols, protocol_text, same, add_words, parse_protocols,
  enabled_protocols, iface_list, interfaces_on, names_of, protocols_text, toggled, toggle_protocol,
}

-- `toLowerCase` leaves a text of small Latin letters as it is.
abbrev pub KeepsLower : (Text → Text) → Type 0
KeepsLower lower = (t : Text) → all (λ c. leb b'a' c && leb c b'z') t ≡ true → lower t ≡ t

abbrev pub xor : Bool → Bool → Bool
xor true b = not b
xor false b = b

same_eq : (p q : ProtocolKey) → same p q ≡ true → p ≡ q
same_eq cdp cdp h = refl
same_eq lldp lldp h = refl
same_eq mndp mndp h = refl
same_eq cdp lldp h = cc
same_eq cdp mndp h = cc
same_eq lldp cdp h = cc
same_eq lldp mndp h = cc
same_eq mndp cdp h = cc
same_eq mndp lldp h = cc

same_refl : (p : ProtocolKey) → same p p ≡ true
same_refl cdp = refl
same_refl lldp = refl
same_refl mndp = refl

same_iff : (p q : ProtocolKey) → (same p q ≡ true) ↔ (p ≡ q)
same_iff p q = (same_eq p q, λ e. subst (λ r. same p r ≡ true) e (same_refl p))

same_key :
    (q p : ProtocolKey) (s : List ProtocolKey) → same p q ≡ true → has same q s ≡ has same p s
same_key q p s e = ap (λ r. has same r s) (sym (same_eq p q e))

has-toggled :
    (q p : ProtocolKey) (s : List ProtocolKey)
    → has same q (toggled p s) ≡ xor (same p q) (has same q s)
unfolding toggled
has-toggled q p s = elim (Bool-cases (same p q)) [
  | inl e ↦
      ground
        (arith, has-add same same_iff q p s, has-delete same same_iff q p s, same_key q p s e, e)
  | inr e ↦ ground (arith, has-add same same_iff q p s, has-delete same same_iff q p s, e)
]

-- The words of a subset are read back.
module _ (lower : Text → Text) where
  abbrev some_of : Bool → Bool → Bool → List Text
  some_of a b c =
      let last : List Text = if c then codes "mndp" ∷ [] else [] in
      let middle = if b then codes "lldp" ∷ last else last in
      if a then codes "cdp" ∷ middle else middle

  unfolded : Unit {0}
  unfolding add_words has add parse_protocols split_by trim is_space trim_start trim_end text_eq
      names_of join protocols_text all_protocols protocol_text
  unfolded = tt

  some_of-read :
      (a b c : Bool)
      → KeepsLower lower
      → let s = parse_protocols lower (some (join (codes ",") (some_of a b c))) in
        (has same cdp s ≡ a) × (has same lldp s ≡ b) × (has same mndp s ≡ c)
  unfolding unfolded
  some_of-read true true true keeps =
      rw (keeps (codes "cdp") refl, keeps (codes "lldp") refl, keeps (codes "mndp") refl)
        (refl, refl, refl)
  some_of-read true true false keeps =
      rw (keeps (codes "cdp") refl, keeps (codes "lldp") refl) (refl, refl, refl)
  some_of-read true false true keeps =
      rw (keeps (codes "cdp") refl, keeps (codes "mndp") refl) (refl, refl, refl)
  some_of-read true false false keeps = rw (keeps (codes "cdp") refl) (refl, refl, refl)
  some_of-read false true true keeps =
      rw (keeps (codes "lldp") refl, keeps (codes "mndp") refl) (refl, refl, refl)
  some_of-read false true false keeps = rw (keeps (codes "lldp") refl) (refl, refl, refl)
  some_of-read false false true keeps = rw (keeps (codes "mndp") refl) (refl, refl, refl)
  some_of-read false false false keeps = (refl, refl, refl)

  parse_protocols-protocols_text :
      (q : ProtocolKey) (s : List ProtocolKey)
      → KeepsLower lower
      → has same q (parse_protocols lower (some (protocols_text s))) ≡ has same q s
  unfolding protocols_text names_of all_protocols protocol_text
  parse_protocols-protocols_text cdp s keeps =
      (some_of-read (has same cdp s) (has same lldp s) (has same mndp s) keeps).0
  parse_protocols-protocols_text lldp s keeps =
      (some_of-read (has same cdp s) (has same lldp s) (has same mndp s) keeps).1
  parse_protocols-protocols_text mndp s keeps =
      (some_of-read (has same cdp s) (has same lldp s) (has same mndp s) keeps).2

  interfaces_on-kept :
      (o : Option Text) → interfaces_on (if interfaces_on o then o else some (codes "all")) ≡ true
  unfolding interfaces_on text_eq
  interfaces_on-kept none = refl
  interfaces_on-kept (some []) = refl
  interfaces_on-kept (some (c ∷ t)) = elim (Bool-cases (text_eq (c ∷ t) (codes "none"))) [
    | inl e ↦ ground arith
    | inr e ↦ ground arith
  ]

  xor_twice : (a b : Bool) → xor a (xor a b) ≡ b
  xor_twice true true = refl
  xor_twice true false = refl
  xor_twice false b = refl

  has-toggle_protocol :
      (p q : ProtocolKey) (discovery : Option NeighborDiscovery)
      → KeepsLower lower
      → has same q (enabled_protocols lower (some (toggle_protocol lower p discovery)))
        ≡ xor (same p q) (has same q (enabled_protocols lower discovery))
  unfolding toggle_protocol
  has-toggle_protocol p q discovery keeps =
      let before = enabled_protocols lower discovery in
      parse_protocols-protocols_text q (toggled p before) keeps ∙ has-toggled q p before

  toggle_protocol-on :
      (p : ProtocolKey) (discovery : Option NeighborDiscovery)
      → interfaces_on (toggle_protocol lower p discovery).discover_interface_list ≡ true
  unfolding toggle_protocol
  toggle_protocol-on p discovery = interfaces_on-kept (iface_list discovery)

  -- What a click on a protocol sends is read back as the protocols that were on before, with that one
  -- flipped and the others as they were, and with discovery on for some interfaces. Two clicks on the
  -- same protocol bring the first protocols back, if what was sent is what is read in between.
  -- `toLowerCase` leaves small Latin letters as they are.
  pub toggle_protocol-parse :
      (p q : ProtocolKey) (discovery : Option NeighborDiscovery)
      → KeepsLower lower
      → let after = some (toggle_protocol lower p discovery) in
        (has same q (enabled_protocols lower after)
          ≡ xor (same p q) (has same q (enabled_protocols lower discovery)))
        × (interfaces_on (iface_list after) ≡ true)
        × (has same q (enabled_protocols lower (some (toggle_protocol lower p after)))
            ≡ has same q (enabled_protocols lower discovery))
  toggle_protocol-parse p q discovery keeps =
      let after = some (toggle_protocol lower p discovery) in
      let flipped = has-toggle_protocol p q discovery keeps in
      (
        flipped,
        toggle_protocol-on p discovery,
        has-toggle_protocol p q after keeps ∙ ap (xor (same p q)) flipped ∙ xor_twice _ _,
      )
