-- ===== src/RuleForm.antt =====
-- The form for a rule of a host's firewall (RuleForm in frontend/src/components/ufw-firewall.tsx): how it
-- opens on a rule, and what it sends.
pub mod Numbers
pub mod Meaning
pub mod Saving
mod Tests
use netfleet.Common.{
  ℕ, zero, suc, Option, none, some, List, [], ◌∷◌, Bool, true, false, not, ◌||◌, ◌==◌, Text, codes,
  text_eq, trim, split_by, if◌then◌else◌,
}
use netfleet.Json.{print}
use netfleet.Payload.{Optional, null, given}
use netfleet.Session.Client.{Env}
use netfleet.Api.{Endpoint}
use netfleet.Api.Ufw.{
  Action, allow, Direction, inbound, Protocol, UfwRuleCreate, create_ufw_rule, edit_ufw_rule,
}

-- A row of `ufw status`, as far as the form reads it; a position is 1 or more.
pub record UfwRule : Type 0 where
  pub action : Action
  pub direction : Direction
  pub destination : Text
  pub source : Text
  pub position : Option ℕ
  pub interface : Option Text
  pub comment : Option Text
  pub spec : Option Text

-- The fields; the protocol "" is `none`.
pub record Form : Type 0 where
  pub action : Action
  pub direction : Direction
  pub port : Text
  pub protocol : Option Protocol
  pub from_address : Text
  pub to_address : Text
  pub iface : Text
  pub comment : Text
  pub position : Text

abbrev pub is_blank : Text → Bool
is_blank t = text_eq t []

abbrev pub text_or : Option Text → Text
text_or none = []
text_or (some t) = t

abbrev pub protocol_named : Text → Option Protocol
protocol_named t =
    if text_eq t (codes "tcp")
    then some Protocol.tcp
    else if text_eq t (codes "udp")
    then some Protocol.udp
    else none

-- `const [port, proto] = value.split("/")`
abbrev pub port_and_protocol : List Text → Text × Option Protocol
port_and_protocol [] = ([], none)
port_and_protocol (port ∷ []) = (port, none)
port_and_protocol (port ∷ proto ∷ more) = (port, protocol_named proto)

abbrev pub position_text : Option ℕ → Text
position_text none = []
position_text (some zero) = []
position_text (some (suc n)) = print (suc n)

-- `toLowerCase` is a parameter.
module _ (lower : Text → Text) where
  abbrev pub is_anywhere : Text → Bool
  is_anywhere value = is_blank value || text_eq (lower value) (codes "anywhere")

  unfoldable pub split_destination : Text → Text × Option Protocol
  unfolding trim split_by
  split_destination destination =
      if is_anywhere (trim destination)
      then ([], none)
      else port_and_protocol (split_by (λ c. c == b'/') (trim destination))

  unfoldable pub anywhere_to_blank : Text → Text
  unfolding trim
  anywhere_to_blank source = if is_anywhere (trim source) then [] else trim source

  -- The states that the form begins with.
  unfoldable pub open_form : Option UfwRule → Form
  unfolding split_destination anywhere_to_blank print
  open_form none = record {
    action = allow;
    direction = inbound;
    port = (split_destination []).0;
    protocol = (split_destination []).1;
    from_address = anywhere_to_blank [];
    to_address = [];
    iface = [];
    comment = [];
    position = [];
  }
  open_form (some editing) = record {
    action = editing.action;
    direction = editing.direction;
    port = (split_destination editing.destination).0;
    protocol = (split_destination editing.destination).1;
    from_address = anywhere_to_blank editing.source;
    to_address = [];
    iface = text_or editing.interface;
    comment = text_or editing.comment;
    position = position_text editing.position;
  }

-- `t.trim() || null`
abbrev pub or_null : Text → Optional Text
or_null t = if is_blank (trim t) then null else given (trim t)

abbrev pub protocol_or_null : Option Protocol → Optional Protocol
protocol_or_null none = null
protocol_or_null (some p) = given p

-- `Number(t)` is a parameter: `none` is NaN, which JSON writes as null.
module _ (number : Text → Option ℕ) where
  abbrev pub number_or_null : Option ℕ → Optional ℕ
  number_or_null none = null
  number_or_null (some n) = given n

  unfoldable pub body : Form → UfwRuleCreate
  unfolding trim
  body f = record {
    action = f.action;
    direction = f.direction;
    from_address = or_null f.from_address;
    to_address = or_null f.to_address;
    port = or_null f.port;
    protocol = protocol_or_null f.protocol;
    interface = or_null f.iface;
    comment = or_null f.comment;
    position = if is_blank (trim f.position) then null else number_or_null (number f.position);
  }

  abbrev spec_of : Option UfwRule → Text
  spec_of none = []
  spec_of (some editing) = text_or editing.spec

  -- The mutation of the form; `force` has its default.
  unfoldable pub save : Env → Text → Option UfwRule → Form → Endpoint
  unfolding body
  save env device_id editing f =
      if is_blank (spec_of editing)
      then create_ufw_rule env device_id (body f)
      else edit_ufw_rule env device_id (spec_of editing) (body f) false
