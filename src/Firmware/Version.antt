-- ===== src/Firmware/Version.antt =====
-- Which devices are offered for an upgrade.
use netfleet.Common.{
  ℕ, ◌≡◌, refl, ◌≢◌, [], ◌∷◌, ◌++◌, some, true, false, not, Text, All, text_eq, is_space,
  trim_start, trim_end, codes, arith, ◌==◌, ==_iff, Bool-cases, inl, inr,
}
use netfleet.Firmware.{matches_rest, matches, strip, norm_fw, Device, to_bool, upgradable}

-- A character of a version: no space, and no opening parenthesis.
abbrev pub IsPlain : ℕ → Type 0
IsPlain c = (c ≢ b'(') × (is_space c ≡ false)

-- A version with the name of its channel.
abbrev pub with_channel : Text → Text → Text
with_channel v channel = v ++ b' ' ∷ b'(' ∷ (channel ++ b')' ∷ [])

matches_rest-channel :
    (channel : Text) → All (λ c. c ≢ b')') channel → matches_rest (channel ++ b')' ∷ []) ≡ true
unfolding matches_rest
matches_rest-channel [] h = refl
matches_rest-channel (c ∷ channel) h = ground (arith, matches_rest-channel channel h.1)

no_parenthesis : (c : ℕ) → c ≢ b'(' → (c == b'(') ≡ false
no_parenthesis c h = elim (Bool-cases (c == b'(')) [
  | inl same ↦ absurd (h ((==_iff c b'(').0 same))
  | inr differs ↦ differs
]

strip-channel :
    (v channel : Text)
    → All IsPlain v
    → All (λ c. c ≢ b')') channel
    → strip (with_channel v channel) ≡ v
unfolding strip matches is_space
strip-channel [] channel p h = rw (matches_rest-channel channel h) refl
strip-channel (c ∷ v) channel p h =
    rw (no_parenthesis c p.0.0, p.0.1, strip-channel v channel p.1 h) refl

trim-plain : (v : Text) → All IsPlain v → (trim_start v ≡ v) × (trim_end v ≡ v)
unfolding trim_start trim_end
trim-plain [] p = (refl, refl)
trim-plain (c ∷ v) p = (rw p.0.1 refl, rw (p.0.1, (trim-plain v p.1).1) refl)

norm_fw-channel :
    (v channel : Text)
    → All IsPlain v
    → All (λ c. c ≢ b')') channel
    → norm_fw (some (with_channel v channel)) ≡ v
unfolding norm_fw trim_end trim_start
norm_fw-channel [] channel p h = rw (strip-channel [] channel p h) refl
norm_fw-channel (c ∷ v) channel p h =
    rw (strip-channel (c ∷ v) channel p h, (trim-plain (c ∷ v) p).0, (trim-plain (c ∷ v) p).1) refl

to_bool-channel : (v channel : Text) → to_bool (some (with_channel v channel)) ≡ true
unfolding to_bool text_eq
to_bool-channel [] channel = refl
to_bool-channel (c ∷ v) channel = refl

-- Of an enabled device that is no server, and whose versions come with the names of channels, an
-- upgrade is offered exactly if the versions without these names are different. The versions have
-- no spaces and no parentheses, and the names no closing ones.
pub upgradable-with_channel :
    (d : Device) (v w channel channel' : Text)
    → All IsPlain v
    → All IsPlain w
    → All (λ c. c ≢ b')') channel
    → All (λ c. c ≢ b')') channel'
    → d.is_enabled ≡ true
    → text_eq d.device_class (codes "server") ≡ false
    → d.firmware ≡ some (with_channel v channel)
    → d.firmware_available ≡ some (with_channel w channel')
    → upgradable d ≡ not (text_eq v w)
unfolding upgradable
upgradable-with_channel d v w channel channel' pv pw h h' on router e e' =
    rw
      (
        on,
        router,
        e,
        e',
        norm_fw-channel v channel pv h,
        norm_fw-channel w channel' pw h',
        to_bool-channel v channel,
        to_bool-channel w channel',
      )
      refl
