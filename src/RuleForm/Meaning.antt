-- ===== src/RuleForm/Meaning.antt =====
-- The rows whose destination is "Anywhere", or ports with or without a protocol, what they say, and
-- the request that says the same.
use netfleet.Common.{
  ℕ, suc, ◌≡◌, Option, none, some, [], ◌++◌, false, ◌==◌, Text, codes, text_eq, trim, All,
}
use netfleet.Json.{print}
use netfleet.Payload.{Optional, null, given}
use netfleet.Api.Ufw.{Action, Direction, Protocol, UfwRuleCreate}
use netfleet.RuleForm.{UfwRule, is_blank}

-- What such a row says: ports with or without a protocol, a remote address, an interface, a comment,
-- and a position counted from 0.
pub record PortRule : Type 0 where
  pub action : Action
  pub direction : Direction
  pub ports : Option (Text × Option Protocol)
  pub from_address : Option Text
  pub interface : Option Text
  pub comment : Option Text
  pub position : Option ℕ

abbrev pub suffix : Option Protocol → Text
suffix none = []
suffix (some Protocol.tcp) = codes "/tcp"
suffix (some Protocol.udp) = codes "/udp"

abbrev pub destination_of : Option (Text × Option Protocol) → Text
destination_of none = codes "Anywhere"
destination_of (some (port, protocol)) = port ++ suffix protocol

abbrev pub source_of : Option Text → Text
source_of none = codes "Anywhere"
source_of (some a) = a

abbrev pub position_of : Option ℕ → Option ℕ
position_of none = none
position_of (some n) = some (suc n)

-- The row that says it.
abbrev pub row_of : Option Text → PortRule → UfwRule
row_of spec r = record {
  action = r.action;
  direction = r.direction;
  destination = destination_of r.ports;
  source = source_of r.from_address;
  position = position_of r.position;
  interface = r.interface;
  comment = r.comment;
  spec = spec;
}

abbrev pub asked : {A : Type 0} → Option A → Optional A
asked none = null
asked (some a) = given a

abbrev pub port_of : Option (Text × Option Protocol) → Option Text
port_of none = none
port_of (some (port, protocol)) = some port

abbrev pub protocol_of : Option (Text × Option Protocol) → Option Protocol
protocol_of none = none
protocol_of (some (port, protocol)) = protocol

-- The request that says the same.
abbrev pub request_of : PortRule → UfwRuleCreate
request_of r = record {
  action = r.action;
  direction = r.direction;
  from_address = asked r.from_address;
  to_address = null;
  port = asked (port_of r.ports);
  protocol = asked (protocol_of r.ports);
  interface = asked r.interface;
  comment = asked r.comment;
  position = asked (position_of r.position);
}

-- A text that is there, without spaces around.
abbrev pub IsTrimmed : Text → Type 0
IsTrimmed t = (trim t ≡ t) × (is_blank t ≡ false)

abbrev pub IsTrimmedIf : Option Text → Type 0
IsTrimmedIf none = Unit
IsTrimmedIf (some t) = IsTrimmed t

-- What is asked of the other texts, given how the code lowers them.
module _ (lower : Text → Text) where
  abbrev pub IsAddress : Option Text → Type 0
  IsAddress none = Unit
  IsAddress (some t) = IsTrimmed t × (text_eq (lower t) (codes "anywhere") ≡ false)

  abbrev pub IsPorts : Option (Text × Option Protocol) → Type 0
  IsPorts none = Unit
  IsPorts (some (port, protocol)) =
      IsTrimmed port
      × IsTrimmed (port ++ suffix protocol)
      × (text_eq (lower (port ++ suffix protocol)) (codes "anywhere") ≡ false)
      × All (λ c. (c == b'/') ≡ false) port

  pub record IsPlain (r : PortRule) : Type 0 where
    pub ports : IsPorts r.ports
    pub from_address : IsAddress r.from_address
    pub interface : IsTrimmedIf r.interface
    pub comment : IsTrimmedIf r.comment

-- The two functions of the language, as far as the form relies on them: the word "Anywhere",
-- and the numbers of a position.
abbrev pub LowersAnywhere : (Text → Text) → Type 0
LowersAnywhere lower = lower (codes "Anywhere") ≡ codes "anywhere"

abbrev pub ReadsNumbers : (Text → Option ℕ) → Type 0
ReadsNumbers number = (n : ℕ) → number (print n) ≡ some n
