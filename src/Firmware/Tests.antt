-- ===== src/Firmware/Tests.antt =====
-- Devices and selections at concrete inputs.
use netfleet.Common.{
  Bool, All, Text, ◌&&◌, false, none, includes, starts_with, ends_with, leb, length, add, delete,
  sort, insert, trim_start, trim_end, ◌≡◌, refl, [], ◌∷◌, some, true, not, is_space, has, codes,
  text_eq, arith,
}
use netfleet.Firmware.{Device, upgradable}
use netfleet.Firmware.Version.{with_channel, upgradable-with_channel}
use netfleet.Firmware.{matches_rest, matches, strip, norm_fw, to_bool}
use netfleet.Firmware.Groups.{Group, group_key, push, collect, groups_of, plan_group, plan}
use netfleet.Firmware.Planned.{count, tally, IsApproved, plan-IsApproved}
use netfleet.Firmware.Upgrade.{triggered, is_approved, upgrade_one}
use netfleet.Firmware.Upgrade.Checked.{Outcome, upgrade_one-checked}
use netfleet.Json.{Json, Fields, get, get_text}
use netfleet.Session.Storage.{ms, set_access_token, get_access_token, is_expiring_soon}
use netfleet.Session.Client.{
  Env, Tab, response, send, before_request, after_response, fetch, current_token, skips_refresh,
  skips_retry, await_call, json_call, rethrow, do_refresh, finish_refresh, retry, store_token,
  token_pair,
}
use netfleet.Api.{perform}
use netfleet.Api.FirmwareOps.{check_device_firmware, trigger_firmware_upgrade}

abbrev router : Device
router = record {
  id = codes "r1";
  name = codes "core";
  model = some (codes "CCR2004");
  is_enabled = true;
  device_class = codes "router";
  firmware = some (with_channel (codes "7.1") (codes "stable"));
  firmware_available = some (with_channel (codes "7.2") (codes "testing"));
}

upgradable-with_channel_example : upgradable router ≡ not (text_eq (codes "7.1") (codes "7.2"))
unfolding is_space text_eq
upgradable-with_channel_example =
    upgradable-with_channel router (codes "7.1") (codes "7.2") (codes "stable") (codes "testing")
      ((omega arith, refl), ((omega arith, refl), ((omega arith, refl), tt)))
      ((omega arith, refl), ((omega arith, refl), ((omega arith, refl), tt)))
      (omega arith, (omega arith, (omega arith, (omega arith, (omega arith, (omega arith, tt))))))
      (
        omega arith,
        (
          omega arith,
          (omega arith, (omega arith, (omega arith, (omega arith, (omega arith, tt))))),
        ),
      )
      refl refl refl refl

abbrev small : Device
small = record {
  id = codes "r7";
  name = codes "edge";
  model = some (codes "A");
  is_enabled = true;
  device_class = codes "router";
  firmware = some (codes "7");
  firmware_available = some (codes "8");
}

-- Texts in the order of their lengths.
abbrev by_length : Text → Text → Bool
by_length a b = leb (length a) (length b)

-- A server that finds version 7 on every router, and 8 to be had.
abbrev finding : Env
finding = record {
  api_base = codes "/api/v1";
  date_ms = λ iso. ms 3600000;
  serve = λ sent r. (
    response 200 [] (
        some (
          Json.object (
            Fields.field (codes "current_version") (Json.text (codes "7 (stable)"))
              (Fields.field (codes "available_version") (Json.text (codes "8")) Fields.end)))),
    5,
  );
}

abbrev tab : Tab
tab = record {
  storage = record {
    token = none;
    expires_at = ms 0;
    listeners = [];
    has_window = true;
    shadow = none;
    heard = [];
  };
  last_refresh_rejected = false;
  now = 100000;
  sent = [];
}

abbrev its_group : Group
its_group = record {
  key = group_key (codes "A") (codes "7") (codes "8");
  model = codes "A";
  from = codes "7";
  to = codes "8";
  devices = small ∷ [];
}

runs : Unit {0}
unfolding text_eq includes starts_with ends_with is_space trim_start trim_end has add delete sort
    insert matches_rest matches strip norm_fw to_bool upgradable group_key push collect groups_of
    plan_group plan is_approved upgrade_one perform check_device_firmware trigger_firmware_upgrade
    get get_text set_access_token get_access_token is_expiring_soon send before_request
    after_response fetch current_token skips_refresh skips_retry await_call json_call rethrow
    do_refresh finish_refresh retry store_token token_pair
runs = tt

-- Without a token each of the two calls asks for a refresh first.
upgraded :
    (plan (codes "r7" ∷ []) (groups_of by_length (small ∷ router ∷ [])) ≡ (small, its_group) ∷ [])
    × ((upgrade_one finding small its_group tab).1.kind ≡ triggered)
    × (length (upgrade_one finding small its_group tab).0.sent ≡ 4)
unfolding runs
upgraded = (refl, refl, refl)

plan-IsApproved_example :
    let steps = plan (codes "r7" ∷ []) (groups_of by_length (small ∷ [])) in
    All (IsApproved (codes "r7" ∷ [])) steps
    × (tally (λ d. true) steps
        ≡ count (λ d. upgradable d && (has text_eq d.id (codes "r7" ∷ []) && true)) (small ∷ []))
unfolding runs
plan-IsApproved_example =
    plan-IsApproved by_length (small ∷ []) (codes "r7" ∷ []) (λ d. true)
      (((omega arith, tt), (omega arith, tt)), tt)

upgrade_one-checked_example :
    let check = perform finding (check_device_firmware finding (codes "r7")) tab in
    Outcome finding small check.1 check.0 (upgrade_one finding small its_group tab)
unfolding runs
upgrade_one-checked_example =
    upgrade_one-checked finding small its_group tab
      (record { offered = refl; model = refl; from = refl; to = refl })
