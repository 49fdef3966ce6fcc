-- ===== src/Firmware.antt =====
-- The bulk upgrade of firmware: normFw of frontend/src/lib/pool.ts, and of
-- frontend/src/app/dashboard/bulk/firmware/page.tsx which devices are offered and which are selected.
pub mod Version
pub mod Selection
pub mod Groups
pub mod Owned
pub mod Planned
pub mod Upgrade
mod Tests
use netfleet.Common.{
  ℕ, List, [], ◌∷◌, ◌++◌, Option, none, some, Bool, true, false, not, ◌&&◌, ◌||◌, Text, codes,
  text_eq, is_space, trim_start, trim_end, has, add, delete, ◌==◌, all, if◌then◌else◌,
}

-- `[^)]*\)\s*$` at the beginning of a text
unfoldable pub matches_rest : Text → Bool
matches_rest [] = false
matches_rest (c ∷ t) = let later = matches_rest t in if c == b')' then all is_space t else later

-- `\s*\([^)]*\)\s*$` at the beginning of a text
unfoldable pub matches : Text → Bool
matches [] = false
matches (c ∷ t) = let later = matches t in if c == b'(' then matches_rest t else is_space c && later

-- `v.replace(/\s*\([^)]*\)\s*$/, "")`: the leftmost match ends the text.
unfoldable pub strip : Text → Text
strip [] = []
strip (c ∷ t) = let rest = strip t in if matches (c ∷ t) then [] else c ∷ rest

unfoldable pub norm_fw : Option Text → Text
norm_fw none = []
norm_fw (some []) = []
norm_fw (some (c ∷ t)) = trim_end (trim_start (strip (c ∷ t)))

-- What the view reads of a device.
pub record Device : Type 0 where
  pub id : Text
  pub name : Text
  pub model : Option Text
  pub is_enabled : Bool
  pub device_class : Text
  pub firmware : Option Text
  pub firmware_available : Option Text

-- `Boolean(v)`
unfoldable pub to_bool : Option Text → Bool
to_bool none = false
to_bool (some t) = not (text_eq t [])

unfoldable pub upgradable : Device → Bool
upgradable d =
    d.is_enabled
    && not (text_eq d.device_class (codes "server"))
    && to_bool d.firmware
    && to_bool d.firmware_available
    && not (text_eq (norm_fw d.firmware) (norm_fw d.firmware_available))

-- The selected ids are a Set: what it has is what counts, not its order.
-- The loop of `toggleGroup` over the devices of the group.
unfoldable pub toggle_all : Bool → List Device → List Text → List Text
toggle_all every [] next = next
toggle_all every (d ∷ devices) next =
    toggle_all every devices (if every then delete text_eq d.id next else add text_eq d.id next)

unfoldable pub toggle_group : List Device → List Text → List Text
toggle_group devices selected =
    toggle_all (all (λ (d : Device). has text_eq d.id selected) devices) devices selected

unfoldable pub toggle_device : Text → List Text → List Text
toggle_device id selected =
    if has text_eq id selected then delete text_eq id selected else add text_eq id selected
