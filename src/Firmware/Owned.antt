-- ===== src/Firmware/Owned.antt =====
-- The groups hold the devices that they are named for.
use netfleet.Common.{
  ◌≡◌, refl, sym, ◌∙◌, ◌≢◌, List, [], ◌∷◌, ◌++◌, true, Text, text_eq, text_eq_iff, All, All-append,
  Bool-cases, inl, inr, arith,
}
use netfleet.Firmware.{Device, norm_fw, upgradable}
use netfleet.Firmware.Groups.{Group, group_key, model_of, key_of, new_group, push, collect}

-- A text without the character between the parts of a key.
abbrev pub IsClean : Text → Type 0
IsClean t = All (λ c. c ≢ 0) t

abbrev pub IsCleanDevice : Device → Type 0
IsCleanDevice d = IsClean (model_of d) × IsClean (norm_fw d.firmware)

-- The group is that of the device.
pub record IsOwn (g : Group) (d : Device) : Type 0 where
  pub offered : upgradable d ≡ true
  pub model : model_of d ≡ g.model
  pub from : norm_fw d.firmware ≡ g.from
  pub to : norm_fw d.firmware_available ≡ g.to

pub record IsGood (g : Group) : Type 0 where
  pub keyed : g.key ≡ group_key g.model g.from g.to
  pub clean : IsClean g.model × IsClean g.from
  pub own : All (IsOwn g) g.devices

-- Two clean texts before the same separator are the same.
cut : (s t x y : Text) → IsClean s → IsClean t → s ++ 0 ∷ x ≡ t ++ 0 ∷ y → (s ≡ t) × (x ≡ y)
cut [] [] x y hs ht e = (refl, cc)
cut [] (d ∷ t) x y hs ht e = absurd (ht.0 (ground arith))
cut (c ∷ s) [] x y hs ht e = absurd (hs.0 (ground arith))
cut (c ∷ s) (d ∷ t) x y hs ht e =
    let heads : c ≡ d = ground arith in
    let (rest, last) = cut s t x y hs.1 ht.1 cc in (rw (heads, rest) refl, last)

group_key-injective :
    (m f t m' f' t' : Text)
    → IsClean m × IsClean f
    → IsClean m' × IsClean f'
    → group_key m f t ≡ group_key m' f' t'
    → (m ≡ m') × (f ≡ f') × (t ≡ t')
unfolding group_key
group_key-injective m f t m' f' t' h h' e =
    let (models, rest) = cut m m' (f ++ 0 ∷ t) (f' ++ 0 ∷ t') h.0 h'.0 e in
    let (froms, tos) = cut f f' t t' h.1 h'.1 rest in (models, froms, tos)

own_lem :
    (g : Group) (d : Device)
    → IsGood g
    → IsCleanDevice d
    → upgradable d ≡ true
    → g.key ≡ key_of d
    → IsOwn g d
own_lem g d good clean offered same =
    let (m, f, t) =
      group_key-injective (model_of d) (norm_fw d.firmware) (norm_fw d.firmware_available) g.model
        g.from g.to clean good.clean (sym same ∙ good.keyed) in
    record { offered = offered; model = m; from = f; to = t }

new_group-IsGood : (d : Device) → IsCleanDevice d → upgradable d ≡ true → IsGood (new_group d)
new_group-IsGood d clean offered = record {
  keyed = refl;
  clean = clean;
  own = (record { offered = offered; model = refl; from = refl; to = refl }, tt);
}

-- The devices of a group may change.
pub with_devices-IsGood :
    (g : Group) (devices : List Device)
    → IsGood g
    → All (IsOwn g) devices
    → IsGood (record g { devices = devices })
with_devices-IsGood g devices good own = record {
  keyed = good.keyed;
  clean = good.clean;
  own = moved devices own;
}
  where
    moved : (ds : List Device) → All (IsOwn g) ds → All (IsOwn (record g { devices = devices })) ds
    moved [] h = tt
    moved (d ∷ ds) h = (
      record { offered = h.0.offered; model = h.0.model; from = h.0.from; to = h.0.to },
      moved ds h.1,
    )

push-IsGood :
    (d : Device) (groups : List Group)
    → IsCleanDevice d
    → upgradable d ≡ true
    → All IsGood groups
    → All IsGood (push d groups)
unfolding push
push-IsGood d [] clean offered h = (new_group-IsGood d clean offered, tt)
push-IsGood d (g ∷ groups) clean offered h = elim (Bool-cases (text_eq g.key (key_of d))) [
  | inl e ↦
      let mine = own_lem g d h.0 clean offered ((text_eq_iff g.key (key_of d)).0 e) in
      rw e (
        with_devices-IsGood g (g.devices ++ d ∷ []) h.0
            (All-append (IsOwn g) g.devices (d ∷ []) h.0.own (mine, tt)),
        h.1,
      )
  | inr e ↦ rw e (h.0, push-IsGood d groups clean offered h.1)
]

pub collect-IsGood :
    (devices : List Device) (groups : List Group)
    → All IsCleanDevice devices
    → All IsGood groups
    → All IsGood (collect devices groups)
unfolding collect
collect-IsGood [] groups clean h = h
collect-IsGood (d ∷ devices) groups clean h = elim (Bool-cases (upgradable d)) [
  | inl e ↦ rw e (collect-IsGood devices (push d groups) clean.1 (push-IsGood d groups clean.0 e h))
  | inr e ↦ rw e (collect-IsGood devices groups clean.1 h)
]
