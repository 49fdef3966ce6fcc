-- ===== src/Api/Tests.antt =====
-- The theorems on endpoint functions at concrete inputs.
use netfleet.Common.{◌≢◌, refl, some, ◌∷◌, Text, codes, arith}
use netfleet.Json.{Json, Fields}
use netfleet.Session.Storage.{ms}
use netfleet.Session.Client.{Env, response}
use netfleet.Api.Addresses.{filter, nat, address}
use netfleet.Api.Addresses.Resolved.{IsName, device_base, address-ne}

-- A server that answers 409 with a reason.
abbrev conflict : Env
conflict = record {
  api_base = codes "/api/v1";
  date_ms = λ iso. ms 3600000;
  serve = λ sent r. (
    response 409 (codes "Conflict") (
        some (Json.object (Fields.field (codes "detail") (Json.text (codes "in use")) Fields.end))),
    5,
  );
}

-- A parser that puts something in front of the base, and leaves the path.
abbrev prefixed : Text → Text
prefixed t = b'h' ∷ t

rule-IsName : IsName (codes "*A/1")
rule-IsName = record {
  points = (omega arith, (omega arith, (omega arith, (omega arith, tt))));
  not_dot = λ e. cc;
  not_dots = λ e. cc;
}

address-ne_example :
    prefixed (address conflict (codes "7") (filter (codes "*A/1")))
    ≢ prefixed (address conflict (codes "7") (nat (codes "*A/1")))
address-ne_example =
    address-ne conflict (codes "7") prefixed (b'h' ∷ device_base conflict (codes "7"))
      (filter (codes "*A/1")) (nat (codes "*A/1")) (λ path h. refl) rule-IsName rule-IsName
      (λ e. cc)
