-- ===== src/Firmware/Upgrade.antt =====
-- One call of the bulk upgrade: the router is asked again, and is told to upgrade if its versions are
-- those of its group (frontend/src/app/dashboard/bulk/firmware/page.tsx).
pub mod Checked
use netfleet.Common.{
  ℕ, ◌≡◌, refl, ◌≢◌, Option, none, some, List, [], ◌∷◌, ◌++◌, Bool, true, false, not, ◌&&◌, ◌||◌,
  Text, codes, text_eq, text_eq_iff, Bool-cases, inl, inr, arith, if◌then◌else◌,
}
use netfleet.Json.{Json, get_text}
use netfleet.Session.Client.{Env, Tab, M, ◌>>=◌, Request, Result, ok, err, Failure, http, other}
use netfleet.Api.{perform}
use netfleet.Api.FirmwareOps.{
  check_device_firmware, trigger_firmware_upgrade, FirmwareUpgradeTarget,
}
use netfleet.Firmware.{Device, norm_fw}
use netfleet.Firmware.Groups.{Group}

pub data ResultKind : Type 0 where
  running triggered skipped failed : ResultKind

pub record DeviceResult : Type 0 where
  pub kind : ResultKind
  pub message : Option Text

-- `(e as Error).message`
abbrev message : Failure → Text
message (other m) = m
message (http status reason body) = reason

abbrev pub failed_by : Failure → DeviceResult
failed_by e = record { kind = failed; message = some (message e) }

-- `cur || "?"`
abbrev or_unknown : Text → Text
or_unknown [] = codes "?"
or_unknown (c ∷ t) = c ∷ t

abbrev pub skipped_at : Group → Text → Text → DeviceResult
skipped_at g cur avail = record {
  kind = skipped;
  message = some (
      if text_eq cur avail || text_eq avail []
      then codes "already on " ++ or_unknown cur
      else codes "now "
        ++ or_unknown cur
        ++ codes " → "
        ++ avail
        ++ codes ", expected "
        ++ g.from
        ++ codes " → "
        ++ g.to);
}

abbrev pub triggered_in : Group → DeviceResult
triggered_in g = record {
  kind = triggered;
  message = some (g.from ++ codes " → " ++ g.to ++ codes ", rebooting");
}

abbrev pub current_of : Json → Text
current_of fresh = norm_fw (get_text (codes "current_version") fresh)

abbrev pub available_of : Json → Text
available_of fresh = norm_fw (get_text (codes "available_version") fresh)

-- `cur === group.from && avail === group.to`; an answer without these texts counts as one with empty ones.
unfoldable pub is_approved : Group → Json → Bool
unfolding norm_fw
is_approved g fresh = text_eq (current_of fresh) g.from && text_eq (available_of fresh) g.to

abbrev pub end_trigger : Group → Result Json → DeviceResult
end_trigger g (ok v) = triggered_in g
end_trigger g (err e) = failed_by e

module _ (env : Env) where
  abbrev pub after_check : Device → Group → Result Json → M DeviceResult
  after_check d g (err e) w = (w, failed_by e)
  after_check d g (ok fresh) w =
      let call = perform env (trigger_firmware_upgrade env d.id FirmwareUpgradeTarget.routeros) w in
      if is_approved g fresh
      then (call.0, end_trigger g call.1)
      else (w, skipped_at g (current_of fresh) (available_of fresh))

  unfoldable pub upgrade_one : Device → Group → M DeviceResult
  unfolding is_approved
  upgrade_one d g = do fresh ← perform env (check_device_firmware env d.id); after_check d g fresh
