-- ===== src/Api/Addresses/Resolved.antt =====
-- The URLs of the rule calls as they are sent: behind the URL parser of the host.
use netfleet.Common.{
  ◌≡◌, refl, ap, sym, ◌∙◌, ◌≢◌, inl, inr, Bool, [], ◌∷◌, ◌++◌, true, false, arith, Text, codes, All,
  All-append, ◌==◌, split_by,
}
use mathlib.Core.List.{append-nil, append_assoc}
use netfleet.Uri.{is_unreserved, encode_uri_component}
use netfleet.Uri.Injective.{IsPoint, IsPlain, encode_uri_component-IsPlain}
use netfleet.Uri.Dots.{
  IsDotSegment, IsPathChar, empty-IsDotSegment, other-IsDotSegment, path_chars-IsPathChar,
  encode_uri_component-IsDotSegment, encode_uri_component-IsPathChar,
}
use netfleet.Session.Client.{Env}
use netfleet.Api.Addresses.{
  RuleCall, filter, filter_counters, filter_place, nat, nat_counters, rule_of, address, parts, kind,
  suffix, is_nat, address-parts, address-injective, append-cancel,
}

-- A path without dot segments, of characters that a URL parser leaves alone.
pub record IsNormal (path : Text) : Type 0 where
  pub chars : All IsPathChar path
  pub segments : All (λ s. ¬ IsDotSegment s) (split_by (λ c. c == b'/') path)

-- What the URL parser of the host is relied on for: behind a base, it leaves a normal path as it is.
abbrev pub Leaves : (Text → Text) → Text → Text → Type 0
Leaves resolve base root = (path : Text) → IsNormal path → resolve (base ++ path) ≡ root ++ path

-- What the URLs of a device's calls begin with.
abbrev pub device_base : Env → Text → Text
device_base env d = env.api_base ++ b'/' ∷ (codes "devices/" ++ d)

-- An id that names a rule: a text of code points, but neither "." nor "..".
pub record IsName (r : Text) : Type 0 where
  pub points : All IsPoint r
  pub not_dot : r ≢ codes "."
  pub not_dots : r ≢ codes ".."

-- A text without slashes is one segment, before the end or before a slash.
split_one : (s : Text) → All IsPlain s → split_by (λ c. c == b'/') s ≡ s ∷ []
unfolding split_by
split_one [] h = refl
split_one (c ∷ s) h = rw (split_one s h.1) (ground (arith, h.0.0))

split_before :
    (s t : Text)
    → All IsPlain s
    → split_by (λ c. c == b'/') (s ++ b'/' ∷ t) ≡ s ∷ split_by (λ c. c == b'/') t
unfolding split_by
split_before [] t h = refl
split_before (c ∷ s) t h = rw (split_before s t h.1) (ground (arith, h.0.0))

segments-encoded :
    (r : Text) (c : RuleCall)
    → All IsPlain r
    → ¬ IsDotSegment r
    → All (λ s. ¬ IsDotSegment s) (split_by (λ c. c == b'/') (r ++ suffix c))
unfolding split_by
segments-encoded r (filter i) h n = rw (append-nil r, split_one r h) (n, tt)
segments-encoded r (nat i) h n = rw (append-nil r, split_one r h) (n, tt)
segments-encoded r (filter_counters i) h n =
    rw (split_before r (codes "reset-counters") h)
      (n, (other-IsDotSegment b'r' (codes "eset-counters") (omega arith) (omega arith), tt))
segments-encoded r (filter_place i) h n =
    rw (split_before r (codes "move") h)
      (n, (other-IsDotSegment b'm' (codes "ove") (omega arith) (omega arith), tt))
segments-encoded r (nat_counters i) h n =
    rw (split_before r (codes "reset-counters") h)
      (n, (other-IsDotSegment b'r' (codes "eset-counters") (omega arith) (omega arith), tt))

segments-kind :
    (b : Bool) (x : Text)
    → All (λ s. ¬ IsDotSegment s) (split_by (λ c. c == b'/') x)
    → All (λ s. ¬ IsDotSegment s) (split_by (λ c. c == b'/') (kind b ++ x))
unfolding split_by
segments-kind false x h = (
  empty-IsDotSegment,
  (
    other-IsDotSegment b'f' (codes "irewall") (omega arith) (omega arith),
    (other-IsDotSegment b'f' (codes "ilter") (omega arith) (omega arith), h),
  ),
)
segments-kind true x h = (
  empty-IsDotSegment,
  (
    other-IsDotSegment b'f' (codes "irewall") (omega arith) (omega arith),
    (other-IsDotSegment b'n' (codes "at") (omega arith) (omega arith), h),
  ),
)

kind-IsPathChar : (b : Bool) → All IsPathChar (kind b)
unfolding is_unreserved
kind-IsPathChar false = path_chars-IsPathChar (kind false) refl
kind-IsPathChar true = path_chars-IsPathChar (kind true) refl

suffix-IsPathChar : (c : RuleCall) → All IsPathChar (suffix c)
unfolding is_unreserved
suffix-IsPathChar (filter r) = tt
suffix-IsPathChar (nat r) = tt
suffix-IsPathChar (filter_counters r) = path_chars-IsPathChar (codes "/reset-counters") refl
suffix-IsPathChar (filter_place r) = path_chars-IsPathChar (codes "/move") refl
suffix-IsPathChar (nat_counters r) = path_chars-IsPathChar (codes "/reset-counters") refl

named : (c : RuleCall) → IsName (rule_of c) → ¬ IsDotSegment (encode_uri_component (rule_of c))
named c v dots = elim (encode_uri_component-IsDotSegment (rule_of c) dots) [
  | inl e ↦ v.not_dot e
  | inr e ↦ v.not_dots e
]

parts-IsNormal : (c : RuleCall) → IsName (rule_of c) → IsNormal (parts c)
parts-IsNormal c v =
    let r = encode_uri_component (rule_of c) in
    record {
      chars = All-append IsPathChar (kind (is_nat c)) (r ++ suffix c) (kind-IsPathChar (is_nat c)) (
          All-append IsPathChar r (suffix c) (encode_uri_component-IsPathChar (rule_of c) v.points)
            (suffix-IsPathChar c));
      segments =
          segments-kind (is_nat c) (r ++ suffix c)
            (segments-encoded r c (encode_uri_component-IsPlain (rule_of c) v.points) (named c v));
    }

address-base :
    (env : Env) (d : Text) (c : RuleCall) → address env d c ≡ device_base env d ++ parts c
address-base env d c =
    address-parts env d c
    ∙ sym (append_assoc env.api_base (b'/' ∷ (codes "devices/" ++ d)) (parts c))

resolved-address :
    (env : Env) (d : Text) (resolve : Text → Text) (root : Text) (c : RuleCall)
    → Leaves resolve (device_base env d) root
    → IsName (rule_of c)
    → resolve (address env d c) ≡ root ++ parts c
resolved-address env d resolve root c leaves v =
    ap resolve (address-base env d c) ∙ leaves (parts c) (parts-IsNormal c v)

-- On one device, two different ones of these calls go to different URLs, behind the URL parser too:
-- the encoded id of a rule can neither reach into another rule's URL nor into another part of the
-- API. The ids are texts of code points other than "." and "..", and of the parser it is relied on
-- that it leaves a path without dot segments as it is, where that has only letters, digits, slashes
-- and the other characters that encodeURIComponent gives.
pub address-ne :
    (env : Env) (d : Text) (resolve : Text → Text) (root : Text) (c c' : RuleCall)
    → Leaves resolve (device_base env d) root
    → IsName (rule_of c)
    → IsName (rule_of c')
    → c ≢ c'
    → resolve (address env d c) ≢ resolve (address env d c')
address-ne env d resolve root c c' leaves v v' apart e =
    let same : parts c ≡ parts c' = append-cancel root (parts c) (parts c') (
      sym (resolved-address env d resolve root c leaves v)
      ∙ e
      ∙ resolved-address env d resolve root c' leaves v') in
    apart (
      address-injective env d c c' v.points v'.points (
        address-base env d c ∙ ap (λ t. device_base env d ++ t) same ∙ sym (address-base env d c')))
