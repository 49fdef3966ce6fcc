-- ===== src/RuleForm/Numbers.antt =====
-- A number that is written in digits has no spaces around.
use netfleet.Common.{
  ℕ, zero, suc, ◌+◌, ◌/◌, ◌%◌, ◌≡◌, refl, [], ◌∷◌, false, ltb, Text, text_eq, is_space, trim,
  trim_start, trim_end, All, Bool-cases, inl, inr, arith,
}
use netfleet.Json.{digits_from, print}
use netfleet.RuleForm.{is_blank}

-- A text without spaces is not trimmed.
trim_start-plain : (t : Text) → All (λ c. is_space c ≡ false) t → trim_start t ≡ t
unfolding trim_start
trim_start-plain [] h = refl
trim_start-plain (c ∷ t) h = rw h.0 refl

trim_end-plain : (t : Text) → All (λ c. is_space c ≡ false) t → trim_end t ≡ t
unfolding trim_end
trim_end-plain [] h = refl
trim_end-plain (c ∷ t) h = rw (h.0, trim_end-plain t h.1) refl

trim-plain : (t : Text) → All (λ c. is_space c ≡ false) t → trim t ≡ t
unfolding trim
trim-plain t h = rw (trim_start-plain t h, trim_end-plain t h) refl

digit-plain : (n : ℕ) → is_space (48 + n % 10) ≡ false
unfolding is_space
digit-plain n = ground arith

digits_from-plain :
    (fuel n : ℕ) (acc : Text)
    → All (λ c. is_space c ≡ false) acc
    → All (λ c. is_space c ≡ false) (digits_from fuel n acc)
unfolding digits_from
digits_from-plain zero n acc h = h
digits_from-plain (suc fuel) n acc h = elim (Bool-cases (ltb n 10)) [
  | inl e ↦ rw e (digit-plain n, h)
  | inr e ↦ rw e (digits_from-plain fuel (n / 10) ((48 + n % 10) ∷ acc) (digit-plain n, h))
]

digits_from-filled : (fuel n c : ℕ) (acc : Text) → is_blank (digits_from fuel n (c ∷ acc)) ≡ false
unfolding digits_from text_eq
digits_from-filled zero n c acc = refl
digits_from-filled (suc fuel) n c acc = elim (Bool-cases (ltb n 10)) [
  | inl e ↦ rw e refl
  | inr e ↦ rw e (digits_from-filled fuel (n / 10) (48 + n % 10) (c ∷ acc))
]

pub print-filled : (n : ℕ) → is_blank (print n) ≡ false
unfolding print digits_from text_eq
print-filled n = elim (Bool-cases (ltb n 10)) [
  | inl e ↦ rw e refl
  | inr e ↦ rw e (digits_from-filled n (n / 10) (48 + n % 10) [])
]

pub trim-print : (n : ℕ) → trim (print n) ≡ print n
unfolding print
trim-print n = trim-plain (print n) (digits_from-plain (suc n) n [] tt)
