-- ===== src/Tunnel/Networks.antt =====
-- The networks that a side exposes: those that are ticked, and the words of the text beside them.
use netfleet.Common.{
  ℕ, ◌≡◌, refl, sym, ap, ◌∙◌, ◌⊎◌, List, [], ◌∷◌, ◌++◌, Bool, true, false, ◌||◌, ◌==◌, arith, Text,
  text_eq, text_eq_iff, is_space, trim, trim_start, trim_end, split_by, on_head, has, add, has-add,
  has-append, Distinct, All, Bool-cases, inl, inr,
}
use mathlib.Core.List.{append-nil}
use netfleet.Tunnel.{filled, trimmed, words, add_each, merge_cidrs}

text_eq_swap : (x y : Text) → text_eq y x ≡ false → text_eq x y ≡ false
text_eq_swap x y h = elim (Bool-cases (text_eq x y)) [
  | inl e ↦ absurd (ground (arith, (text_eq_iff y x).1 (sym ((text_eq_iff x y).0 e)), h))
  | inr e ↦ e
]

or_false : (a b : Bool) → (a || b) ≡ false → (a ≡ false) × (b ≡ false)
or_false true b h = cc
or_false false b h = (refl, h)

append-Distinct :
    (x : Text) (s : List Text)
    → has text_eq x s ≡ false
    → Distinct text_eq s
    → Distinct text_eq (s ++ x ∷ [])
unfolding has
append-Distinct x [] absent d = (refl, tt)
append-Distinct x (y ∷ s) absent d = (
  has-append text_eq text_eq_iff y x s ∙ rw (text_eq_swap x y (or_false _ _ absent).0, d.0) refl,
  append-Distinct x s (or_false _ _ absent).1 d.1,
)

add-Distinct : (x : Text) (s : List Text) → Distinct text_eq s → Distinct text_eq (add text_eq x s)
unfolding add
add-Distinct x s d = elim (Bool-cases (has text_eq x s)) [
  | inl there ↦ rw there d
  | inr absent ↦ rw absent (append-Distinct x s absent d)
]

add_each-Distinct : (cs s : List Text) → Distinct text_eq s → Distinct text_eq (add_each cs s)
unfolding add_each
add_each-Distinct [] s d = d
add_each-Distinct (c ∷ cs) s d = add_each-Distinct cs (add text_eq c s) (add-Distinct c s d)

pub merge_cidrs-Distinct :
    (picks : List Text) (extra : Text) → Distinct text_eq (merge_cidrs picks extra)
unfolding merge_cidrs
merge_cidrs-Distinct picks extra =
    add_each-Distinct (words extra) (add_each picks []) (add_each-Distinct picks [] tt)

has-add_each :
    (x : Text) (cs s : List Text)
    → has text_eq x (add_each cs s) ≡ (has text_eq x s || has text_eq x cs)
unfolding add_each has
has-add_each x [] s = ground arith
has-add_each x (c ∷ cs) s =
    has-add_each x cs (add text_eq c s) ∙ rw (has-add text_eq text_eq_iff x c s) (ground arith)

-- A separator of the text: a comma or a space.
abbrev pub is_separator : ℕ → Bool
is_separator c = c == b',' || is_space c

-- A word that the text gives: not empty, without separators.
abbrev pub IsWord : Text → Type 0
IsWord w = (filled w ≡ true) × All (λ c. is_separator c ≡ false) w

-- How a text reads as words: it is made of separators and of words, and a separator or the end of
-- the text stands behind each word.
pub data Reads : Text → List Text → Type 0 where
  nothing : Reads [] []
  skip : {c : ℕ} {t : Text} {ws : List Text} → is_separator c ≡ true → Reads t ws → Reads (c ∷ t) ws
  last : {w : Text} → IsWord w → Reads w (w ∷ [])
  word :
      {w : Text} (c : ℕ) {t : Text} {ws : List Text}
      → IsWord w
      → is_separator c ≡ true
      → Reads t ws
      → Reads (w ++ c ∷ t) (w ∷ ws)

abbrev IsSolid : Text → Type 0
IsSolid w = All (λ c. is_separator c ≡ false) w

no_space : (c : ℕ) → is_separator c ≡ false → is_space c ≡ false
no_space c h = (or_false (c == b',') (is_space c) h).1

trim_end_solid : (w : Text) → IsSolid w → trim_end w ≡ w
unfolding trim_end
trim_end_solid [] h = refl
trim_end_solid (c ∷ w) h = rw (no_space c h.0, trim_end_solid w h.1) refl

trim_solid : (w : Text) → IsSolid w → trim w ≡ w
unfolding trim trim_start
trim_solid [] h = trim_end_solid [] tt
trim_solid (c ∷ w) h = rw (no_space c h.0) (trim_end_solid (c ∷ w) h)

-- The letters that stand before the rest of a text go to its first piece.
abbrev before : Text → List Text → List Text
before p [] = p ∷ []
before p (w ∷ ws) = (p ++ w) ∷ ws

append_one : (p : Text) (c : ℕ) (t : Text) → (p ++ c ∷ []) ++ t ≡ p ++ c ∷ t
append_one [] c t = refl
append_one (d ∷ p) c t = ap (λ v. d ∷ v) (append_one p c t)

before-on_head :
    (p : Text) (c : ℕ) (ws : List Text) → before p (on_head c ws) ≡ before (p ++ c ∷ []) ws
before-on_head p c [] = refl
before-on_head p c (w ∷ ws) = ap (λ v. v ∷ ws) (sym (append_one p c w))

append-IsSolid : (p : Text) (c : ℕ) → IsSolid p → is_separator c ≡ false → IsSolid (p ++ c ∷ [])
append-IsSolid [] c h k = (k, tt)
append-IsSolid (d ∷ p) c h k = (h.0, append-IsSolid p c h.1 k)

filled_cases : (w : Text) → (w ≡ []) ⊎ (filled w ≡ true)
unfolding text_eq
filled_cases [] = inl refl
filled_cases (c ∷ w) = inr refl

-- A piece that is empty is left out, and another one is a word.
trimmed_word :
    (p : Text) (ws : List Text) → IsSolid p → filled p ≡ true → trimmed (p ∷ ws) ≡ p ∷ trimmed ws
unfolding trimmed
trimmed_word p ws h k = rw (trim_solid p h, k) refl

trimmed_blank : (ws : List Text) → trimmed ([] ∷ ws) ≡ trimmed ws
unfolding trimmed trim trim_start trim_end text_eq
trimmed_blank ws = refl

ends-Reads : (p : Text) → IsSolid p → Reads p (trimmed (p ∷ []))
unfolding trimmed
ends-Reads p h = elim (filled_cases p) [
  | inl e ↦ rw (e, trimmed_blank []) nothing
  | inr e ↦ rw (trimmed_word p [] h e) (last (e, h))
]

piece-Reads :
    (p : Text) (c : ℕ) (t : Text) (ws : List Text)
    → IsSolid p
    → is_separator c ≡ true
    → Reads t (trimmed ws)
    → Reads (p ++ c ∷ t) (trimmed (p ∷ ws))
piece-Reads p c t ws h k r = elim (filled_cases p) [
  | inl e ↦ rw (e, trimmed_blank ws) (skip k r)
  | inr e ↦ rw (trimmed_word p ws h e) (word c (e, h) k r)
]

trimmed-before : (ws : List Text) → trimmed (before [] ws) ≡ trimmed ws
trimmed-before [] = trimmed_blank []
trimmed-before (w ∷ ws) = refl

split_by-Reads :
    (p t : Text) → IsSolid p → Reads (p ++ t) (trimmed (before p (split_by is_separator t)))
unfolding split_by
split_by-Reads p [] h = rw append-nil (ends-Reads p h)
split_by-Reads p (c ∷ t) h = elim (Bool-cases (is_separator c)) [
  | inl e ↦
      rw (e, append-nil)
        (piece-Reads p c t _ h e
          (rw (trimmed-before (split_by is_separator t)) at (split_by-Reads [] t tt)))
  | inr e ↦
      rw (e, before-on_head p c, sym (append_one p c t))
        (split_by-Reads (p ++ c ∷ []) t (append-IsSolid p c h e))
]

words-Reads : (extra : Text) → Reads extra (words extra)
unfolding words
words-Reads extra =
    rw (trimmed-before (split_by is_separator extra)) at (split_by-Reads [] extra tt)

-- The networks of a side are those that are ticked and the words that its text reads as, and no
-- others, and each is there once. A word is not empty and has no comma or space in it.
pub has-merge_cidrs :
    (picks : List Text) (extra : Text)
    → (ws : List Text) × Reads extra ws
      × ((x : Text)
          → has text_eq x (merge_cidrs picks extra) ≡ (has text_eq x picks || has text_eq x ws))
      × Distinct text_eq (merge_cidrs picks extra)
unfolding merge_cidrs has
has-merge_cidrs picks extra = (
  words extra,
  words-Reads extra,
  λ x. has-add_each x (words extra) (add_each picks []) ∙ rw (has-add_each x picks []) refl,
  merge_cidrs-Distinct picks extra,
)
