-- ===== src/Uri/Dots.antt =====
-- Dot segments, which a URL parser takes out of a path: an id that is encoded is none, unless it is
-- one of the ids "." and "..".
use netfleet.Common.{
  ℕ, ◌≡◌, refl, ◌≢◌, ap, sym, ◌∙◌, ◌⊎◌, inl, inr, Option, none, some, List, [], ◌∷◌, ◌++◌, Bool,
  true, false, ◌&&◌, ◌||◌, arith, Text, codes, All, All-append, ◌<◌, ◌/◌, ◌%◌, Bool-cases, ◌==◌,
  if◌then◌else◌,
}
use netfleet.Uri.{is_unreserved, utf8, hex, escape, encode_point, encode_uri_component}
use netfleet.Uri.Injective.{IsPoint, IsByte, utf8-IsByte, encode_point-ne-nil}

-- The rest behind `%2e` without its percent sign.
abbrev undot_hex : Text → Option Text
undot_hex [] = none
undot_hex (a ∷ []) = none
undot_hex (a ∷ b ∷ t) = if a == b'2' && (b == b'e' || b == b'E') then some t else none

-- The rest behind a dot, which may be written `%2e`.
abbrev undot : Text → Option Text
undot [] = none
undot (c ∷ t) = if c == b'.' then some t else if c == b'%' then undot_hex t else none

-- A segment of one dot or of two.
abbrev pub IsDotSegment : Text → Type 0
IsDotSegment s = (undot s ≡ some []) ⊎ ((t : Text) × (undot s ≡ some t) × (undot t ≡ some []))

-- A character that a URL parser leaves in a path.
abbrev pub IsPathChar : ℕ → Type 0
IsPathChar c = (is_unreserved c ≡ true) ⊎ (c ≡ b'%') ⊎ (c ≡ b'/')

undot-escape : (c : ℕ) (x : Text) → c ≢ b'.' → undot (escape (utf8 c) ++ x) ≡ none
unfolding escape utf8 hex
undot-escape c x h = ground arith

undot-encode_point : (c : ℕ) (x : Text) → c ≢ b'.' → undot (encode_point c ++ x) ≡ none
unfolding encode_point is_unreserved
undot-encode_point c x h = elim (Bool-cases (is_unreserved c)) [
  | inl u ↦ rw u (ground arith)
  | inr u ↦ rw u (undot-escape c x h)
]

not_dot_or : (c : ℕ) → (c ≡ b'.') ⊎ (c ≢ b'.')
not_dot_or c = elim (Bool-cases (c == b'.')) [
  | inl e ↦ inl (ground arith)
  | inr e ↦ inr (ground arith)
]

dot-encode_point : (x : Text) → undot (encode_point b'.' ++ x) ≡ some x
unfolding encode_point is_unreserved
dot-encode_point x = refl

some_injective : {x y : Text} → some x ≡ some y → x ≡ y
some_injective e = cc

encoded_nil : (r : Text) → encode_uri_component r ≡ [] → r ≡ []
unfolding encode_uri_component
encoded_nil [] e = refl
encoded_nil (c ∷ r) e = absurd (encode_point-ne-nil c _ e)

-- A dot in front of the encoded text stands in front of the text.
undot-encode_uri_component :
    (r t : Text)
    → undot (encode_uri_component r) ≡ some t
    → (s : Text) × (r ≡ b'.' ∷ s) × (encode_uri_component s ≡ t)
unfolding encode_uri_component
undot-encode_uri_component [] t e = cc
undot-encode_uri_component (c ∷ r) t e = elim (not_dot_or c) [
  | inl dot ↦
      let e' : undot (encode_point b'.' ++ encode_uri_component r) ≡ some t = rw dot at e in
      (r, rw dot refl, some_injective (sym (dot-encode_point (encode_uri_component r)) ∙ e'))
  | inr other ↦ absurd (let n = undot-encode_point c (encode_uri_component r) other in cc)
]

pub encode_uri_component-IsDotSegment :
    (r : Text) → IsDotSegment (encode_uri_component r) → (r ≡ codes ".") ⊎ (r ≡ codes "..")
encode_uri_component-IsDotSegment r (inl e) =
    let (s, split, rest) = undot-encode_uri_component r [] e in
    inl (split ∙ ap (λ v. b'.' ∷ v) (encoded_nil s rest))
encode_uri_component-IsDotSegment r (inr (t, e, e')) =
    let (s, split, rest) = undot-encode_uri_component r t e in
    let (s', split', rest') = undot-encode_uri_component s [] (rw rest e') in
    inr (split ∙ ap (λ v. b'.' ∷ v) (split' ∙ ap (λ v. b'.' ∷ v) (encoded_nil s' rest')))

hex-IsPathChar : (d : ℕ) → d < 16 → is_unreserved (hex d) ≡ true
unfolding hex is_unreserved
hex-IsPathChar d h = ground arith

escape-IsPathChar : (bs : List ℕ) → All IsByte bs → All IsPathChar (escape bs)
unfolding escape
escape-IsPathChar [] h = tt
escape-IsPathChar (b ∷ bs) h = (
  inr (inl refl),
  (
    inl (hex-IsPathChar (b / 16) (omega arith)),
    (inl (hex-IsPathChar (b % 16) (omega arith)), escape-IsPathChar bs h.1),
  ),
)

encode_point-IsPathChar : (c : ℕ) → IsPoint c → All IsPathChar (encode_point c)
unfolding encode_point
encode_point-IsPathChar c h = elim (Bool-cases (is_unreserved c)) [
  | inl u ↦ rw u (inl u, tt)
  | inr u ↦ rw u (escape-IsPathChar (utf8 c) (utf8-IsByte c h))
]

pub encode_uri_component-IsPathChar :
    (s : Text) → All IsPoint s → All IsPathChar (encode_uri_component s)
unfolding encode_uri_component
encode_uri_component-IsPathChar [] h = tt
encode_uri_component-IsPathChar (c ∷ s) h =
    All-append IsPathChar (encode_point c) (encode_uri_component s) (encode_point-IsPathChar c h.0)
      (encode_uri_component-IsPathChar s h.1)

pub empty-IsDotSegment : ¬ IsDotSegment []
empty-IsDotSegment (inl e) = cc
empty-IsDotSegment (inr (t, e, e')) = cc

pub other-IsDotSegment : (c : ℕ) (t : Text) → c ≢ b'.' → c ≢ b'%' → ¬ IsDotSegment (c ∷ t)
other-IsDotSegment c t h k d = absurd (dotless d)
  where
    closed : undot (c ∷ t) ≡ none
    closed = ground (arith, h, k)

    dotless : IsDotSegment (c ∷ t) → ⊥
    dotless (inl e) = let n = closed in cc
    dotless (inr (u, e, e')) = let n = closed in cc

abbrev path_char : ℕ → Bool
path_char c = is_unreserved c || c == b'%' || c == b'/'

path_char-IsPathChar : (c : ℕ) → path_char c ≡ true → IsPathChar c
path_char-IsPathChar c h = elim (Bool-cases (is_unreserved c)) [
  | inl u ↦ inl u
  | inr u ↦ elim (Bool-cases (c == b'%')) [
    | inl p ↦ inr (inl (ground arith))
    | inr p ↦ inr (inr (ground (arith, h)))
  ]
]

abbrev pub path_chars : Text → Bool
path_chars [] = true
path_chars (c ∷ t) = path_char c && path_chars t

and_true : (a b : Bool) → (a && b) ≡ true → (a ≡ true) × (b ≡ true)
and_true true b h = (refl, h)
and_true false b h = cc

pub path_chars-IsPathChar : (t : Text) → path_chars t ≡ true → All IsPathChar t
path_chars-IsPathChar [] h = tt
path_chars-IsPathChar (c ∷ t) h =
    let (one, more) = and_true (path_char c) (path_chars t) h in
    (path_char-IsPathChar c one, path_chars-IsPathChar t more)
