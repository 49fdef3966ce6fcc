-- ===== src/Uri/Injective.antt =====
-- Different texts are encoded differently, and no encoded text holds a slash.
use netfleet.Common.{
  ℕ, ◌+◌, ◌*◌, ◌-◌, ◌/◌, ◌%◌, ◌<◌, ◌≤◌, ◌≡◌, refl, ◌≢◌, ap, ap₂, sym, ◌∙◌, List, [], ◌∷◌, ◌++◌,
  true, arith, Text, ltb, if◌then◌else◌, length, All, All-append, Bool-cases, inl, inr,
}
use netfleet.Uri.{is_unreserved, utf8, hex, escape, encode_point, encode_uri_component}

-- A text without lone surrogates, as far as the encoding needs it.
abbrev pub IsPoint : ℕ → Type 0
IsPoint c = c < 1114112

from_utf8 : List ℕ → ℕ
from_utf8 (a ∷ []) = a
from_utf8 (a ∷ b ∷ []) = (a - 192) * 64 + (b - 128)
from_utf8 (a ∷ b ∷ c ∷ []) = (a - 224) * 4096 + (b - 128) * 64 + (c - 128)
from_utf8 (a ∷ b ∷ c ∷ d ∷ rest) =
    (a - 240) * 262144 + (b - 128) * 4096 + (c - 128) * 64 + (d - 128)
from_utf8 [] = 0

from_utf8-utf8 : (c : ℕ) → from_utf8 (utf8 c) ≡ c
unfolding from_utf8 utf8
from_utf8-utf8 c = ground arith

abbrev pub IsByte : ℕ → Type 0
IsByte b = b < 256

pub utf8-IsByte : (c : ℕ) → IsPoint c → All IsByte (utf8 c)
unfolding utf8
utf8-IsByte c h = ground arith

hex-injective : (a b : ℕ) → a < 16 → b < 16 → hex a ≡ hex b → a ≡ b
unfolding hex
hex-injective a b h k e = ground arith

-- The first byte decides how many there are.
size : List ℕ → ℕ
size [] = 0
size (b ∷ bs) = if ltb b 128 then 1 else if ltb b 224 then 2 else if ltb b 240 then 3 else 4

utf8-size : (c : ℕ) → IsPoint c → length (utf8 c) ≡ size (utf8 c)
unfolding utf8 size
utf8-size c h = ground arith

first_byte :
    (b c : ℕ) (bs cs x y : List ℕ)
    → IsByte b
    → IsByte c
    → escape (b ∷ bs) ++ x ≡ escape (c ∷ cs) ++ y
    → (b ≡ c) × (escape bs ++ x ≡ escape cs ++ y)
unfolding escape
first_byte b c bs cs x y hb hc e =
    let high : hex (b / 16) ≡ hex (c / 16) = cc in
    let low : hex (b % 16) ≡ hex (c % 16) = cc in
    let h = hex-injective (b / 16) (c / 16) (omega arith) (omega arith) high in
    let l = hex-injective (b % 16) (c % 16) (omega arith) (omega arith) low in (omega arith, cc)

escape-injective :
    (bs cs x y : List ℕ)
    → All IsByte bs
    → All IsByte cs
    → length bs ≡ length cs
    → escape bs ++ x ≡ escape cs ++ y
    → (bs ≡ cs) × (x ≡ y)
unfolding escape
escape-injective [] [] x y hb hc l e = (refl, e)
escape-injective [] (c ∷ cs) x y hb hc l e = absurd (omega arith)
escape-injective (b ∷ bs) [] x y hb hc l e = absurd (omega arith)
escape-injective (b ∷ bs) (c ∷ cs) x y hb hc l e =
    let (same, rest) = first_byte b c bs cs x y hb.0 hc.0 e in
    let (more, tail) = escape-injective bs cs x y hb.1 hc.1 (omega arith) rest in
    (ap₂ (λ (a : ℕ) (r : List ℕ). a ∷ r) same more, tail)

same_size :
    (bs cs x y : List ℕ)
    → All IsByte bs
    → All IsByte cs
    → 1 ≤ length bs
    → 1 ≤ length cs
    → escape bs ++ x ≡ escape cs ++ y
    → size bs ≡ size cs
unfolding size
same_size [] cs x y hb hc p q e = absurd (omega arith)
same_size (b ∷ bs) [] x y hb hc p q e = absurd (omega arith)
same_size (b ∷ bs) (c ∷ cs) x y hb hc p q e =
    let same = (first_byte b c bs cs x y hb.0 hc.0 e).0 in rw same refl

utf8-pos : (c : ℕ) → 1 ≤ length (utf8 c)
unfolding utf8
utf8-pos c = ground arith

escape-utf8-injective :
    (c d : ℕ) (x y : Text)
    → IsPoint c
    → IsPoint d
    → escape (utf8 c) ++ x ≡ escape (utf8 d) ++ y
    → (c ≡ d) × (x ≡ y)
escape-utf8-injective c d x y hc hd e =
    let bc = utf8-IsByte c hc in
    let bd = utf8-IsByte d hd in
    let size = same_size (utf8 c) (utf8 d) x y bc bd (utf8-pos c) (utf8-pos d) e in
    let (bytes, rest) =
      escape-injective (utf8 c) (utf8 d) x y bc bd (utf8-size c hc ∙ size ∙ sym (utf8-size d hd))
        e in
    (sym (from_utf8-utf8 c) ∙ ap from_utf8 bytes ∙ from_utf8-utf8 d, rest)

-- An escape begins with a percent sign, which is no character that stays.
escape_head : (c d : ℕ) (x y : Text) → is_unreserved c ≡ true → c ∷ x ≢ escape (utf8 d) ++ y
unfolding is_unreserved utf8 escape
escape_head c d x y h e = ground arith

encode_point-injective :
    (c d : ℕ) (x y : Text)
    → IsPoint c
    → IsPoint d
    → encode_point c ++ x ≡ encode_point d ++ y
    → (c ≡ d) × (x ≡ y)
unfolding encode_point
encode_point-injective c d x y hc hd e = elim (Bool-cases (is_unreserved c)) [
  | inl u ↦ elim (Bool-cases (is_unreserved d)) [
    | inl v ↦ let e' : c ∷ x ≡ d ∷ y = rw (u, v) at e in (cc, cc)
    | inr v ↦ absurd (escape_head c d x y u (rw (u, v) at e))
  ]
  | inr u ↦ elim (Bool-cases (is_unreserved d)) [
    | inl v ↦ absurd (escape_head d c y x v (sym (rw (u, v) at e)))
    | inr v ↦ escape-utf8-injective c d x y hc hd (rw (u, v) at e)
  ]
]

pub encode_point-ne-nil : (c : ℕ) (x : Text) → encode_point c ++ x ≢ []
unfolding encode_point utf8 escape
encode_point-ne-nil c x e = ground arith

-- Texts of code points that are encoded alike are equal.
pub encode_uri_component-injective :
    (s t : Text)
    → All IsPoint s
    → All IsPoint t
    → encode_uri_component s ≡ encode_uri_component t
    → s ≡ t
unfolding encode_uri_component
encode_uri_component-injective [] [] hs ht e = refl
encode_uri_component-injective [] (d ∷ t) hs ht e = absurd (encode_point-ne-nil d _ (sym e))
encode_uri_component-injective (c ∷ s) [] hs ht e = absurd (encode_point-ne-nil c _ e)
encode_uri_component-injective (c ∷ s) (d ∷ t) hs ht e =
    let (same, rest) = encode_point-injective c d _ _ hs.0 ht.0 e in
    ap₂ (λ (a : ℕ) (r : Text). a ∷ r) same (encode_uri_component-injective s t hs.1 ht.1 rest)

-- None of the characters that end a part of a URL.
abbrev pub IsPlain : ℕ → Type 0
IsPlain c = (c ≢ b'/') × (c ≢ b'?') × (c ≢ b'#')

hex-IsPlain : (d : ℕ) → d < 16 → IsPlain (hex d)
unfolding hex
hex-IsPlain d h = ground arith

escape-IsPlain : (bs : List ℕ) → All IsByte bs → All IsPlain (escape bs)
unfolding escape
escape-IsPlain [] h = tt
escape-IsPlain (b ∷ bs) h = (
  (omega arith, omega arith, omega arith),
  (hex-IsPlain (b / 16) (omega arith), (hex-IsPlain (b % 16) (omega arith), escape-IsPlain bs h.1)),
)

encode_point-IsPlain : (c : ℕ) → IsPoint c → All IsPlain (encode_point c)
unfolding encode_point
encode_point-IsPlain c h = elim (Bool-cases (is_unreserved c)) [
  | inl u ↦ rw u (unfold is_unreserved in ground arith, tt)
  | inr u ↦ rw u (escape-IsPlain (utf8 c) (utf8-IsByte c h))
]

pub encode_uri_component-IsPlain : (s : Text) → All IsPoint s → All IsPlain (encode_uri_component s)
unfolding encode_uri_component
encode_uri_component-IsPlain [] h = tt
encode_uri_component-IsPlain (c ∷ s) h =
    All-append IsPlain (encode_point c) (encode_uri_component s) (encode_point-IsPlain c h.0)
      (encode_uri_component-IsPlain s h.1)
