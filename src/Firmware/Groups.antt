-- ===== src/Firmware/Groups.antt =====
-- The groups of the bulk upgrade, and what is planned of them
-- (frontend/src/app/dashboard/bulk/firmware/page.tsx).
use netfleet.Common.{
  none, some, List, [], ◌∷◌, ◌++◌, Bool, true, false, Text, codes, text_eq, has, sort,
  if◌then◌else◌,
}
use netfleet.Firmware.{Device, norm_fw, upgradable}

-- Devices that share a model and both versions.
pub record Group : Type 0 where
  pub key : Text
  pub model : Text
  pub from : Text
  pub to : Text
  pub devices : List Device

unfoldable pub group_key : Text → Text → Text → Text
group_key model from to = model ++ 0 ∷ (from ++ 0 ∷ to)

-- `d.model ?? "Unknown model"`
abbrev pub model_of : Device → Text
model_of d = elim d.model [ none ↦ codes "Unknown model" | some m ↦ m ]

abbrev pub key_of : Device → Text
key_of d = group_key (model_of d) (norm_fw d.firmware) (norm_fw d.firmware_available)

abbrev pub new_group : Device → Group
new_group d = record {
  key = key_of d;
  model = model_of d;
  from = norm_fw d.firmware;
  to = norm_fw d.firmware_available;
  devices = d ∷ [];
}

-- The Map of groups, in the order of insertion: the group of the key, or a new one, takes the device.
unfoldable pub push : Device → List Group → List Group
unfolding group_key norm_fw
push d [] = new_group d ∷ []
push d (g ∷ groups) =
    let rest = push d groups in
    if text_eq g.key (key_of d)
    then record g { devices = g.devices ++ d ∷ [] } ∷ groups
    else g ∷ rest

unfoldable pub collect : List Device → List Group → List Group
unfolding push upgradable
collect [] groups = groups
collect (d ∷ devices) groups = collect devices (if upgradable d then push d groups else groups)

-- `a.localeCompare(b) <= 0` is a parameter.
module _ (locale_le : Text → Text → Bool) where
  abbrev pub device_le : Device → Device → Bool
  device_le a b = locale_le a.name b.name

  -- `a.model.localeCompare(b.model) || a.from.localeCompare(b.from)` is not positive.
  abbrev pub group_le : Group → Group → Bool
  group_le a b =
      if locale_le a.model b.model
      then if locale_le b.model a.model then locale_le a.from b.from else true
      else false

  abbrev pub sort_devices : Group → Group
  sort_devices g = record g { devices = sort device_le g.devices }

  abbrev pub sort_each : List Group → List Group
  sort_each [] = []
  sort_each (g ∷ groups) = sort_devices g ∷ sort_each groups

  unfoldable pub groups_of : List Device → List Group
  unfolding collect
  groups_of devices = sort group_le (sort_each (collect devices []))

-- The devices of a group that are selected.
unfoldable pub plan_group : List Text → Group → List Device → List (Device × Group)
plan_group selected g [] = []
plan_group selected g (d ∷ devices) =
    let rest = plan_group selected g devices in
    if has text_eq d.id selected then (d, g) ∷ rest else rest

-- The plan of `upgradeSelected`. Only ids of the groups are looked for, so that `effective` and
-- `selected` give the same plan.
unfoldable pub plan : List Text → List Group → List (Device × Group)
unfolding plan_group
plan selected [] = []
plan selected (g ∷ groups) = plan_group selected g g.devices ++ plan selected groups
