-- ===== src/RuleForm/Saving.antt =====
-- What is sent of a row that is opened and saved without a change.
use netfleet.Common.{
  ℕ, suc, ◌≡◌, refl, Option, none, some, [], ◌∷◌, ◌++◌, false, ◌==◌, Text, codes, text_eq, is_space,
  trim, trim_start, trim_end, split_by, All, if◌then◌else◌,
}
use mathlib.Core.List.{append-nil}
use netfleet.Payload.{null, given}
use netfleet.Api.Ufw.{Protocol}
use netfleet.RuleForm.Numbers.{trim-print, print-filled}
use netfleet.RuleForm.{
  is_blank, text_or, port_and_protocol, position_text, split_destination, anywhere_to_blank,
  open_form, or_null, protocol_or_null, number_or_null, body,
}
use netfleet.RuleForm.Meaning.{
  PortRule, suffix, destination_of, source_of, position_of, row_of, asked, port_of, protocol_of,
  request_of, IsTrimmed, IsTrimmedIf, IsAddress, IsPorts, IsPlain, LowersAnywhere, ReadsNumbers,
}

or_null-trimmed : (t : Text) → IsTrimmed t → or_null t ≡ given t
or_null-trimmed t h = rw (h.0, h.1) refl

or_null-text_or : (o : Option Text) → IsTrimmedIf o → or_null (text_or o) ≡ asked o
unfolding trim trim_start trim_end text_eq
or_null-text_or none h = refl
or_null-text_or (some t) h = or_null-trimmed t h

split_by-plain :
    (t : Text) → All (λ c. (c == b'/') ≡ false) t → split_by (λ c. c == b'/') t ≡ t ∷ []
unfolding split_by
split_by-plain [] h = refl
split_by-plain (c ∷ t) h = rw (h.0, split_by-plain t h.1) refl

split_by-slash :
    (t u : Text)
    → All (λ c. (c == b'/') ≡ false) t
    → split_by (λ c. c == b'/') (t ++ b'/' ∷ u) ≡ t ∷ split_by (λ c. c == b'/') u
unfolding split_by
split_by-slash [] u h = refl
split_by-slash (c ∷ t) u h = rw (h.0, split_by-slash t u h.1) refl

split_by-suffix :
    (port : Text) (protocol : Option Protocol)
    → All (λ c. (c == b'/') ≡ false) port
    → port_and_protocol (split_by (λ c. c == b'/') (port ++ suffix protocol)) ≡ (port, protocol)
unfolding split_by text_eq
split_by-suffix port none h = rw (append-nil port, split_by-plain port h) refl
split_by-suffix port (some Protocol.tcp) h = rw (split_by-slash port (codes "tcp") h) refl
split_by-suffix port (some Protocol.udp) h = rw (split_by-slash port (codes "udp") h) refl

module _ (lower : Text → Text) (lowers : LowersAnywhere lower) where
  split_destination-destination_of :
      (ports : Option (Text × Option Protocol))
      → IsPorts lower ports
      → split_destination lower (destination_of ports)
        ≡ (text_or (port_of ports), protocol_of ports)
  unfolding split_destination trim trim_start trim_end is_space text_eq
  split_destination-destination_of none h = rw lowers refl
  split_destination-destination_of (some (port, protocol)) h =
      rw (h.1.0, h.1.1, h.2) (split_by-suffix port protocol h.3)

  anywhere_to_blank-source_of :
      (from_address : Option Text)
      → IsAddress lower from_address
      → anywhere_to_blank lower (source_of from_address) ≡ text_or from_address
  unfolding anywhere_to_blank trim trim_start trim_end is_space text_eq
  anywhere_to_blank-source_of none h = rw lowers refl
  anywhere_to_blank-source_of (some a) h = rw (h.0.0, h.0.1, h.1) refl

  port_of-IsTrimmed :
      (ports : Option (Text × Option Protocol)) → IsPorts lower ports → IsTrimmedIf (port_of ports)
  port_of-IsTrimmed none h = tt
  port_of-IsTrimmed (some (port, protocol)) h = h.0

  address-IsTrimmed : (a : Option Text) → IsAddress lower a → IsTrimmedIf a
  address-IsTrimmed none h = tt
  address-IsTrimmed (some a) h = h.0

protocol_or_null-asked : (o : Option Protocol) → protocol_or_null o ≡ asked o
protocol_or_null-asked none = refl
protocol_or_null-asked (some p) = refl

module _ (lower : Text → Text) (number : Text → Option ℕ) where
  position-asked :
      (o : Option ℕ)
      → ReadsNumbers number
      → (if is_blank (trim (position_text (position_of o)))
          then null
          else number_or_null number (number (position_text (position_of o))))
        ≡ asked (position_of o)
  unfolding trim trim_start trim_end text_eq
  position-asked none reads = refl
  position-asked (some n) reads = rw (trim-print (suc n), print-filled (suc n), reads (suc n)) refl

  -- A row whose destination is "Anywhere", or ports with or without "/tcp" or "/udp", is opened in
  -- the form and saved without a change: what is sent says what the row says, its action, direction,
  -- ports, protocol, source, interface, comment and position, and nothing else. Its texts have no
  -- spaces around, its ports no slash, and none of them reads "anywhere"; `toLowerCase` lowers
  -- "Anywhere", and `Number` reads the numbers that are written in decimal digits.
  pub body-open_form :
      (r : PortRule) (spec : Option Text)
      → LowersAnywhere lower
      → ReadsNumbers number
      → IsPlain lower r
      → body number (open_form lower (some (row_of spec r))) ≡ request_of r
  unfolding body open_form text_eq
  body-open_form r spec lowers reads plain =
      let split = split_destination-destination_of lower lowers r.ports plain.ports in
      let from = anywhere_to_blank-source_of lower lowers r.from_address plain.from_address in
      let port =
        or_null-text_or (port_of r.ports) (port_of-IsTrimmed lower lowers r.ports plain.ports) in
      let address =
        or_null-text_or r.from_address
          (address-IsTrimmed lower lowers r.from_address plain.from_address) in
      rw
        (
          split,
          from,
          port,
          address,
          protocol_or_null-asked (protocol_of r.ports),
          or_null-text_or r.interface plain.interface,
          or_null-text_or r.comment plain.comment,
          position-asked r.position reads,
        )
        refl
