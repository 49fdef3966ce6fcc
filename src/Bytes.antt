-- ===== src/Bytes.antt =====
-- Sizes as texts: formatBytes of frontend/src/lib/host-health.ts (the same code stands in
-- lib/network.ts and, as formatSize, in app/dashboard/settings/page.tsx), and formatBytes of
-- lib/resources.ts. Sizes are whole numbers of bytes below 2^53, so that every quotient by a power
-- of 1024 is exact.
pub mod Reading
mod Tests
use netfleet.Common.{
  ℕ, zero, suc, ◌+◌, ◌*◌, ◌/◌, ◌%◌, ◌^◌, List, [], ◌∷◌, ◌++◌, Option, none, some, Bool, true, false,
  not, ◌&&◌, ◌||◌, Text, codes, ltb, leb, if◌then◌else◌,
}
use netfleet.Json.{print}

abbrev pub unit_at : List Text → ℕ → Text
unit_at [] i = []
unit_at (u ∷ us) zero = u
unit_at (u ∷ us) (suc i) = unit_at us i

-- The loop on `v` and `i`, where v is n / 1024^i, and so many larger units are left.
unfoldable pub scale : ℕ → ℕ → ℕ → ℕ
scale zero n i = i
scale (suc left) n i = let rest = scale left n (suc i) in if leb (1024 ^ suc i) n then rest else i

-- `Math.round` of a quotient
unfoldable pub round : ℕ → ℕ → ℕ
round m d = (2 * m + d) / (2 * d)

-- `toFixed(0)` and `toFixed(1)` of a quotient
abbrev pub fixed : Bool → ℕ → Text
fixed true digits = print digits
fixed false digits = print (digits / 10) ++ b'.' ∷ print (digits % 10)

unfoldable pub to_fixed : Bool → ℕ → ℕ → Text
to_fixed true n d = fixed true (round n d)
to_fixed false n d = fixed false (round (10 * n) d)

abbrev pub decimal_units : List Text
decimal_units = codes "B" ∷ codes "KB" ∷ codes "MB" ∷ codes "GB" ∷ codes "TB" ∷ []

-- lib/host-health.ts
unfoldable pub format_bytes : Option ℕ → Text
format_bytes none = codes "—"
format_bytes (some n) =
    let i = scale 4 n 0 in
    to_fixed (leb (100 * 1024 ^ i) n) n (1024 ^ i) ++ b' ' ∷ unit_at decimal_units i

abbrev pub binary_units : List Text
binary_units = codes "B" ∷ codes "KiB" ∷ codes "MiB" ∷ codes "GiB" ∷ codes "TiB" ∷ codes "PiB" ∷ []

-- lib/resources.ts
unfoldable pub format_binary : Option ℕ → Text
format_binary none = codes "—"
format_binary (some n) =
    let i = scale 5 n 0 in
    to_fixed (not (ltb n (10 * 1024 ^ i) && ltb 0 i)) n (1024 ^ i) ++ b' ' ∷ unit_at binary_units i
