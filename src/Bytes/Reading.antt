-- ===== src/Bytes/Reading.antt =====
-- What the texts say of the sizes.
use native.Mathlib.Nat.{div-add-mod, mod-lt, one-le-pow}
use netfleet.Common.{
  ℕ, zero, suc, ◌+◌, ◌*◌, ◌^◌, ◌≤◌, ◌<◌, ◌≡◌, refl, ◌⊎◌, inl, inr, List, ◌∷◌, ◌++◌, some, Bool,
  true, false, not, ◌&&◌, Text, ltb, leb, if◌then◌else◌, Bool-cases, arith,
}
use netfleet.Bytes.{
  unit_at, scale, round, fixed, to_fixed, decimal_units, format_bytes, binary_units, format_binary,
}

-- The digits are the quotient, to the nearest number, upwards from a half.
abbrev pub IsNearest : ℕ → ℕ → ℕ → Type 0
IsNearest m d q = (2 * d * q ≤ 2 * m + d) × (2 * m + d < 2 * d * q + 2 * d)

-- A text that states a size in one of the units, up to the one with a given index.
pub record Reads (units : List Text) (top n : ℕ) (text : Text) : Type 0 where
  pub index : ℕ
  pub whole : Bool
  pub digits : ℕ
  pub stated : text ≡ fixed whole digits ++ b' ' ∷ unit_at units index
  pub in_range : index ≤ top
  pub fits : (index ≡ 0) ⊎ (1024 ^ index ≤ n)
  pub largest : (index ≡ top) ⊎ (n < 1024 ^ suc index)
  pub nearest : IsNearest (if whole then n else 10 * n) (1024 ^ index) digits

round-IsNearest : (m d : ℕ) → 1 ≤ d → IsNearest m d (round m d)
unfolding round
round-IsNearest m d h =
    let whole = div-add-mod (2 * m + d) (2 * d) in
    let part = mod-lt (2 * m + d) {m = 2 * d} (omega arith) in
    (omega (arith, whole), omega (arith, whole, part))

scale_range : (left n i : ℕ) → scale left n i ≤ i + left
unfolding scale
scale_range zero n i = omega arith
scale_range (suc left) n i = ground (arith, scale_range left n (suc i))

scale_fits : (left n i : ℕ) → (scale left n i ≡ i) ⊎ (1024 ^ scale left n i ≤ n)
unfolding scale
scale_fits zero n i = inl refl
scale_fits (suc left) n i = elim (Bool-cases (leb (1024 ^ suc i) n)) [
  | inl more ↦ rw more (
      inr (elim (scale_fits left n (suc i)) [
        | inl here ↦ rw here (ground (arith, more))
        | inr fits ↦ fits
      ]))
  | inr less ↦ rw less (inl refl)
]

scale_largest : (left n i : ℕ) → (scale left n i ≡ i + left) ⊎ (n < 1024 ^ suc (scale left n i))
unfolding scale
scale_largest zero n i = inl (omega arith)
scale_largest (suc left) n i = elim (Bool-cases (leb (1024 ^ suc i) n)) [
  | inl more ↦ rw more (elim (scale_largest left n (suc i)) [
    | inl at_top ↦ inl (omega (arith, at_top))
    | inr fits ↦ inr fits
  ])
  | inr less ↦ rw less (inr (ground (arith, less)))
]

digits_of : Bool → ℕ → ℕ → ℕ
digits_of true n d = round n d
digits_of false n d = round (10 * n) d

to_fixed-fixed : (w : Bool) (n d : ℕ) → to_fixed w n d ≡ fixed w (digits_of w n d)
unfolding to_fixed digits_of
to_fixed-fixed true n d = refl
to_fixed-fixed false n d = refl

digits_of-IsNearest :
    (w : Bool) (n d : ℕ) → 1 ≤ d → IsNearest (if w then n else 10 * n) d (digits_of w n d)
unfolding digits_of
digits_of-IsNearest true n d h = round-IsNearest n d h
digits_of-IsNearest false n d h = round-IsNearest (10 * n) d h

read :
    (units : List Text) (top n : ℕ) (w : Bool)
    → Reads units top n
        (to_fixed w n (1024 ^ scale top n 0) ++ b' ' ∷ unit_at units (scale top n 0))
read units top n w = record {
  index = scale top n 0;
  whole = w;
  digits = digits_of w n (1024 ^ scale top n 0);
  stated = rw (to_fixed-fixed w n (1024 ^ scale top n 0)) refl;
  in_range = omega (arith, scale_range top n 0);
  fits = scale_fits top n 0;
  largest = elim (scale_largest top n 0) [
    | inl at_top ↦ inl (omega (arith, at_top))
    | inr small ↦ inr small
  ];
  nearest = digits_of-IsNearest w n _ (one-le-pow (scale top n 0) 1024 (omega arith));
}

-- `formatBytes` of the host's health states a size in the largest unit of B to TB that it reaches,
-- rounded to whole ones from a hundred of them on, and to tenths below.
pub format_bytes-Reads :
    (n : ℕ)
    → (r : Reads decimal_units 4 n (format_bytes (some n))) × (r.whole
        ≡ leb (100 * 1024 ^ r.index) n)
unfolding format_bytes read
format_bytes-Reads n = (read decimal_units 4 n _, refl)

-- `formatBytes` of the resources states a size in the largest unit of B to PiB that it reaches,
-- rounded to whole ones for bytes and from ten of the unit on, and to tenths below.
pub format_binary-Reads :
    (n : ℕ)
    → (r : Reads binary_units 5 n (format_binary (some n))) × (r.whole
        ≡ not (ltb n (10 * 1024 ^ r.index) && ltb 0 r.index))
unfolding format_binary read
format_binary-Reads n = (read binary_units 5 n _, refl)
