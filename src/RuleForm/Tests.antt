-- ===== src/RuleForm/Tests.antt =====
-- Rules opened in the form, and its theorem at a rule that meets its hypotheses.
use netfleet.Common.{
  ℕ, zero, suc, ◌+◌, ◌*◌, ◌-◌, ◌/◌, ◌%◌, ◌<◌, ◌≡◌, refl, ap, ◌∙◌, Option, none, some, [], ◌∷◌, true,
  false, ◌==◌, ltb, Text, codes, text_eq, is_space, trim, trim_start, trim_end, split_by,
  Bool-cases, inl, inr, arith, if◌then◌else◌,
}
use netfleet.Json.{digits_from, print}
use netfleet.Payload.{null, given}
use netfleet.Api.Ufw.{Action, Direction, Protocol}
use netfleet.RuleForm.{UfwRule, split_destination, anywhere_to_blank, open_form, body}
use netfleet.RuleForm.Meaning.{PortRule, row_of, request_of, ReadsNumbers, IsPlain}
use netfleet.RuleForm.Saving.{body-open_form}

-- `toLowerCase` on the one capital of these texts, and `Number` on decimal digits.
abbrev lower : Text → Text
lower [] = []
lower (c ∷ t) = (if c == b'A' then b'a' else c) ∷ lower t

abbrev value : ℕ → Text → ℕ
value a [] = a
value a (c ∷ t) = value (a * 10 + (c - 48)) t

abbrev decimal : Text → Option ℕ
decimal t = some (value 0 t)

-- The digits of a number give it back.
step : (n : ℕ) → (n / 10) * 10 + ((48 + n % 10) - 48) ≡ n
step n = omega arith

first : (n : ℕ) → ltb n 10 ≡ true → 0 + ((48 + n % 10) - 48) ≡ n
first n h = ground arith

smaller : (n fuel : ℕ) → n < suc fuel → ltb n 10 ≡ false → n / 10 < fuel
smaller n fuel h e = ground arith

value-digits_from :
    (fuel n : ℕ) (acc : Text) → n < fuel → value 0 (digits_from fuel n acc) ≡ value n acc
unfolding digits_from
value-digits_from zero n acc h = absurd (omega arith)
value-digits_from (suc fuel) n acc h = elim (Bool-cases (ltb n 10)) [
  | inl e ↦ rw e (ap (λ a. value a acc) (first n e))
  | inr e ↦ rw e (
      value-digits_from fuel (n / 10) ((48 + n % 10) ∷ acc) (smaller n fuel h e) ∙ rw (step n) refl)
]

decimal-ReadsNumbers : ReadsNumbers decimal
unfolding print
decimal-ReadsNumbers n = rw (value-digits_from (suc n) n [] (omega arith)) refl

abbrev ssh : PortRule
ssh = record {
  action = Action.allow;
  direction = Direction.inbound;
  ports = some (codes "22", some Protocol.tcp);
  from_address = some (codes "10.0.0.0/8");
  interface = none;
  comment = some (codes "admin");
  position = some 2;
}

runs : Unit {0}
unfolding text_eq is_space trim trim_start trim_end split_by split_destination anywhere_to_blank
    open_form body digits_from print
runs = tt

ssh-IsPlain : IsPlain lower ssh
unfolding runs
ssh-IsPlain = record {
  ports = ((refl, refl), (refl, refl), refl, (refl, (refl, tt)));
  from_address = ((refl, refl), refl);
  interface = tt;
  comment = (refl, refl);
}

body-open_form_example :
    body decimal (open_form lower (some (row_of (some (codes "ufw allow 22/tcp")) ssh)))
    ≡ request_of ssh
unfolding runs
body-open_form_example =
    body-open_form lower decimal ssh (some (codes "ufw allow 22/tcp")) refl decimal-ReadsNumbers
      ssh-IsPlain

-- A rule for one address of the host: the address is sent with the port, and not as an address.
abbrev to_one_address : UfwRule
to_one_address = record (row_of none ssh) { destination = codes "192.0.2.1 22/tcp" }

address_lost :
    ((body decimal (open_form lower (some to_one_address))).port ≡ given (codes "192.0.2.1 22"))
    × ((body decimal (open_form lower (some to_one_address))).to_address ≡ null)
unfolding runs
address_lost = (refl, refl)

-- `ufw allow proto udp from 10.0.0.0/8` comes as a row with the destination "Anywhere", and its
-- protocol stands in `spec` only; the form does not send it.
abbrev all_udp : UfwRule
all_udp = record (row_of (some (codes "ufw allow proto udp from 10.0.0.0/8")) ssh) {
  destination = codes "Anywhere";
}

protocol_lost :
    ((body decimal (open_form lower (some all_udp))).protocol ≡ null)
    × ((body decimal (open_form lower (some all_udp))).from_address ≡ given (codes "10.0.0.0/8"))
unfolding runs
protocol_lost = (refl, refl)

-- `ufw allow from 10.0.0.0/8 to any` comes with the destination "any", which is sent as a port.
any_as_port :
    (body decimal (open_form lower (some (record all_udp { destination = codes "any" })))).port
    ≡ given (codes "any")
unfolding runs
any_as_port = refl
