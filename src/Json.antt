-- ===== src/Json.antt =====
-- JSON values, as the client sends and receives them, and JavaScript's reading of them as text and
-- as a test. Numbers are the natural ones, which are all that the modelled calls exchange.
use netfleet.Common.{
  ℕ, zero, suc, ◌+◌, ◌/◌, ◌%◌, Option, none, some, [], ◌∷◌, ◌++◌, Bool, true, false, not, Text,
  codes, text_eq, ltb, ◌==◌, if◌then◌else◌, ◌≡◌, refl,
}

mutual
  pub data Json : Type 0 where
    null : Json
    boolean : Bool → Json
    number : ℕ → Json
    text : Text → Json
    array : Items → Json
    object : Fields → Json

  pub data Items : Type 0 where
    nil : Items
    cons : Json → Items → Items

  pub data Fields : Type 0 where
    end : Fields
    field : Text → Json → Fields → Fields

-- `String(n)`, by the digits from the last one on; `fuel` bounds their number.
unfoldable pub digits_from : ℕ → ℕ → Text → Text
digits_from zero n acc = acc
digits_from (suc fuel) n acc =
    let rest = digits_from fuel (n / 10) ((48 + n % 10) ∷ acc) in
    if ltb n 10 then (48 + n % 10) ∷ acc else rest

unfoldable pub print : ℕ → Text
unfolding digits_from
print n = digits_from (suc n) n []

-- `String(v)`. In an array the elements are joined by commas, and null is empty.
unfoldable mutual
  unfolding print

  shown : Json → Bool → Text
  shown null in_array = if in_array then [] else codes "null"
  shown (boolean b) in_array = if b then codes "true" else codes "false"
  shown (number n) in_array = print n
  shown (text t) in_array = t
  shown (array xs) in_array = joined xs
  shown (object fs) in_array = codes "[object Object]"

  joined : Items → Text
  joined nil = []
  joined (cons x xs) = shown x true ++ joined_tail xs

  joined_tail : Items → Text
  joined_tail nil = []
  joined_tail (cons x xs) = b',' ∷ (shown x true ++ joined_tail xs)

unfoldable pub js_string : Json → Text
unfolding shown joined joined_tail
js_string v = shown v false

-- `if (v)`
unfoldable pub is_truthy : Json → Bool
is_truthy null = false
is_truthy (boolean b) = b
is_truthy (number n) = not (n == 0)
is_truthy (text []) = false
is_truthy (text (c ∷ t)) = true
is_truthy (array xs) = true
is_truthy (object fs) = true

get_field : Text → Fields → Option Json
get_field k end = none
get_field k (field j v fs) = if text_eq j k then some v else get_field k fs

-- `v.k`: `none` is undefined.
unfoldable pub get : Text → Json → Option Json
unfolding get_field text_eq
get k (object fs) = get_field k fs
get k _ = none

-- A field that the API declares to be a string.
unfoldable pub get_text : Text → Json → Option Text
unfolding get
get_text k v = elim (get k v) [ some (text t) ↦ some t | _ ↦ none ]

print_test : print 1024 ≡ codes "1024"
unfolding print
print_test = refl

js_string_test :
    js_string (array (cons (number 7) (cons null (cons (object end) nil))))
    ≡ codes "7,,[object Object]"
unfolding js_string
js_string_test = refl
