-- ===== src/Uri.antt =====
-- `encodeURIComponent`, which the client puts around the ids in its paths. Texts are lists of code
-- points, none of them a lone surrogate, on which the function throws.
pub mod Injective
pub mod Dots
use netfleet.Common.{
  ℕ, ◌+◌, ◌*◌, ◌/◌, ◌%◌, List, [], ◌∷◌, ◌++◌, Bool, ◌&&◌, ◌||◌, Text, codes, ltb, leb, ◌==◌,
  if◌then◌else◌, ◌≡◌, refl,
}

-- The characters that stay: letters, digits and - _ . ! ~ * ' ( ).
unfoldable pub is_unreserved : ℕ → Bool
is_unreserved c =
    leb b'A' c && leb c b'Z'
    || leb b'a' c && leb c b'z'
    || leb b'0' c && leb c b'9'
    || c == b'-'
    || c == b'_'
    || c == b'.'
    || c == b'!'
    || c == b'~'
    || c == 42
    || c == 39
    || c == 40
    || c == 41

-- The bytes of a code point in UTF-8.
unfoldable pub utf8 : ℕ → List ℕ
utf8 c =
    if ltb c 128
    then c ∷ []
    else if ltb c 2048
    then (192 + c / 64) ∷ (128 + c % 64) ∷ []
    else if ltb c 65536
    then (224 + c / 4096) ∷ (128 + c / 64 % 64) ∷ (128 + c % 64) ∷ []
    else (240 + c / 262144) ∷ (128 + c / 4096 % 64) ∷ (128 + c / 64 % 64) ∷ (128 + c % 64) ∷ []

hex : ℕ → ℕ
hex d = if ltb d 10 then 48 + d else 55 + d

-- `%XX` for each byte.
unfoldable pub escape : List ℕ → Text
unfolding hex
escape [] = []
escape (b ∷ bs) = b'%' ∷ hex (b / 16) ∷ hex (b % 16) ∷ escape bs

unfoldable pub encode_point : ℕ → Text
unfolding is_unreserved utf8 escape
encode_point c = if is_unreserved c then c ∷ [] else escape (utf8 c)

unfoldable pub encode_uri_component : Text → Text
unfolding encode_point
encode_uri_component [] = []
encode_uri_component (c ∷ t) = encode_point c ++ encode_uri_component t

encode_test : encode_uri_component (codes "*A/1 é") ≡ codes "*A%2F1%20%C3%A9"
unfolding encode_uri_component
encode_test = refl
