-- ===== src/Firmware/Upgrade/Checked.antt =====
-- A router is told to upgrade only to what was approved.
use netfleet.Common.{
  ◌≡◌, refl, sym, ◌∙◌, ◌≢◌, ◌⊎◌, inl, inr, Bool, true, false, text_eq_iff, Bool-cases, arith,
}
use netfleet.Json.{Json}
use netfleet.Session.Client.{Env, Tab, Result, ok, err}
use netfleet.Api.{perform}
use netfleet.Api.FirmwareOps.{
  check_device_firmware, trigger_firmware_upgrade, FirmwareUpgradeTarget,
}
use netfleet.Firmware.{Device, norm_fw, upgradable}
use netfleet.Firmware.Groups.{Group}
use netfleet.Firmware.Owned.{IsOwn}
use netfleet.Firmware.Upgrade.{
  ResultKind, triggered, DeviceResult, current_of, available_of, is_approved, end_trigger,
  after_check, upgrade_one,
}

abbrev pub is_triggered : ResultKind → Bool
is_triggered triggered = true
is_triggered _ = false

abbrev pub is_answered : Result Json → Bool
is_answered (ok v) = true
is_answered (err e) = false

-- The check answered with the versions that were listed for the device, which differ.
abbrev pub IsConfirmed : Device → Result Json → Type 0
IsConfirmed d r =
    (fresh : Json) × (r ≡ ok fresh)
    × (current_of fresh ≡ norm_fw d.firmware)
    × (available_of fresh ≡ norm_fw d.firmware_available)
    × (current_of fresh ≢ available_of fresh)

upgradable-differs :
    (d : Device) → upgradable d ≡ true → norm_fw d.firmware ≢ norm_fw d.firmware_available
unfolding upgradable
upgradable-differs d offered e =
    absurd (ground (arith, (text_eq_iff (norm_fw d.firmware) (norm_fw d.firmware_available)).1 e))

is_approved-versions :
    (g : Group) (fresh : Json)
    → is_approved g fresh ≡ true
    → (current_of fresh ≡ g.from) × (available_of fresh ≡ g.to)
unfolding is_approved
is_approved-versions g fresh h = (
  (text_eq_iff (current_of fresh) g.from).0 (ground arith),
  (text_eq_iff (available_of fresh) g.to).0 (ground arith),
)

approved-IsConfirmed :
    (d : Device) (g : Group) (fresh : Json)
    → IsOwn g d
    → is_approved g fresh ≡ true
    → IsConfirmed d (ok fresh)
approved-IsConfirmed d g fresh own h =
    let (from, to) = is_approved-versions g fresh h in
    let current = from ∙ sym own.from in
    let available = to ∙ sym own.to in
    (
      fresh,
      refl,
      current,
      available,
      λ e. upgradable-differs d own.offered (sym current ∙ e ∙ available),
    )

end_trigger-answered :
    (g : Group) (r : Result Json) → is_triggered (end_trigger g r).kind ≡ is_answered r
end_trigger-answered g (ok v) = refl
end_trigger-answered g (err e) = refl

module _ (env : Env) where
  -- What comes of the check, in the tab that it left.
  abbrev pub Outcome : Device → Result Json → Tab → Tab × DeviceResult → Type 0
  Outcome d r w out =
      let call = perform env (trigger_firmware_upgrade env d.id FirmwareUpgradeTarget.routeros) w in
      ((out.0 ≡ w) × (is_triggered out.1.kind ≡ false))
      ⊎ (IsConfirmed d r × (out.0 ≡ call.0) × (is_triggered out.1.kind ≡ is_answered call.1))

  after_check-Outcome :
      (d : Device) (g : Group) (r : Result Json) (w : Tab)
      → IsOwn g d
      → Outcome d r w (after_check env d g r w)
  after_check-Outcome d g (err e) w own = inl (refl, refl)
  after_check-Outcome d g (ok fresh) w own = elim (Bool-cases (is_approved g fresh)) [
    | inl h ↦ rw h (inr (approved-IsConfirmed d g fresh own h, refl, end_trigger-answered g _))
    | inr h ↦ rw h (inl (refl, refl))
  ]

  -- For a router that is offered in its group: either nothing is sent after the check, and the router is
  -- not reported as upgrading; or the check answered with exactly the two versions that were
  -- listed for the router, which differ, one call to upgrade it follows, and it is reported as
  -- upgrading exactly if that call succeeds.
  pub upgrade_one-checked :
      (d : Device) (g : Group) (w : Tab)
      → IsOwn g d
      → let check = perform env (check_device_firmware env d.id) w in
        Outcome d check.1 check.0 (upgrade_one env d g w)
  unfolding upgrade_one
  upgrade_one-checked d g w own =
      let check = perform env (check_device_firmware env d.id) w in
      after_check-Outcome d g check.1 check.0 own
