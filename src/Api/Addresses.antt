-- ===== src/Api/Addresses.antt =====
-- Which URLs the endpoint functions address: those that encode an id, and those that do not.
pub mod Resolved
use netfleet.Common.{
  ℕ, ◌≡◌, refl, ap, sym, ◌∙◌, ◌≢◌, [], ◌∷◌, ◌++◌, Bool, true, false, ◌||◌, arith, Text, All, ◌==◌,
  if◌then◌else◌, none, codes,
}
use mathlib.Core.List.{append-nil}
use netfleet.Uri.{encode_uri_component}
use netfleet.Uri.Injective.{
  IsPoint, IsPlain, encode_uri_component-injective, encode_uri_component-IsPlain,
}
use netfleet.Session.Client.{Env}
use netfleet.Api.Firewall.{
  delete_filter_rule, reset_filter_rule_counters, move_filter_rule, delete_nat_rule,
  reset_nat_rule_counters,
}
use netfleet.Api.DeviceOps.{delete_device_group}

-- What firewall.ts addresses by the id of a rule: a filter or NAT rule, its counters, its place.
pub data RuleCall : Type 0 where
  filter filter_counters filter_place nat nat_counters : Text → RuleCall

abbrev pub rule_of : RuleCall → Text
rule_of (filter r) = r
rule_of (filter_counters r) = r
rule_of (filter_place r) = r
rule_of (nat r) = r
rule_of (nat_counters r) = r

pub address : Env → Text → RuleCall → Text
address env d (filter r) = (delete_filter_rule env d r).request.url
address env d (filter_counters r) = (reset_filter_rule_counters env d r).request.url
address env d (filter_place r) = (move_filter_rule env d r none).request.url
address env d (nat r) = (delete_nat_rule env d r).request.url
address env d (nat_counters r) = (reset_nat_rule_counters env d r).request.url

append-cancel : (s x y : Text) → s ++ x ≡ s ++ y → x ≡ y
append-cancel [] x y e = e
append-cancel (c ∷ s) x y e = append-cancel s x y (cc)

-- What stands behind an encoded id: nothing, or a slash.
abbrev IsSuffix : Text → Type 0
IsSuffix [] = Unit
IsSuffix (c ∷ t) = c ≡ b'/'

split :
    (s t x y : Text)
    → All IsPlain s
    → All IsPlain t
    → IsSuffix x
    → IsSuffix y
    → s ++ x ≡ t ++ y
    → (s ≡ t) × (x ≡ y)
split [] [] x y ps pt hx hy e = (refl, e)
split [] (d ∷ t) [] y ps pt hx hy e = cc
split [] (d ∷ t) (c ∷ x) y ps pt hx hy e = absurd (pt.0.0 (ground arith))
split (c ∷ s) [] x [] ps pt hx hy e = cc
split (c ∷ s) [] x (d ∷ y) ps pt hx hy e = absurd (ps.0.0 (ground arith))
split (c ∷ s) (d ∷ t) x y ps pt hx hy e =
    let (rest, tail) = split s t x y ps.1 pt.1 hx hy (cc) in (cc, tail)

abbrev is_nat : RuleCall → Bool
is_nat (filter r) = false
is_nat (filter_counters r) = false
is_nat (filter_place r) = false
is_nat (nat r) = true
is_nat (nat_counters r) = true

-- The path behind the device, up to the encoded id, and what follows that.
abbrev kind : Bool → Text
kind false = codes "/firewall/filter/"
kind true = codes "/firewall/nat/"

abbrev suffix : RuleCall → Text
suffix (filter r) = []
suffix (filter_counters r) = codes "/reset-counters"
suffix (filter_place r) = codes "/move"
suffix (nat r) = []
suffix (nat_counters r) = codes "/reset-counters"

suffix-IsSuffix : (c : RuleCall) → IsSuffix (suffix c)
suffix-IsSuffix (filter r) = tt
suffix-IsSuffix (filter_counters r) = refl
suffix-IsSuffix (filter_place r) = refl
suffix-IsSuffix (nat r) = tt
suffix-IsSuffix (nat_counters r) = refl

first : Text → ℕ
first [] = 0
first (c ∷ t) = c

letters_differ : ◌≢◌ {A = ℕ} b'f' b'n'
letters_differ h = omega arith

heads_differ : (x y : Text) → b'f' ∷ x ≢ b'n' ∷ y
unfolding first
heads_differ x y e = letters_differ (ap first e)

kind-injective : (a b : Bool) (x y : Text) → kind a ++ x ≡ kind b ++ y → (a ≡ b) × (x ≡ y)
kind-injective false false x y e = (refl, append-cancel (kind false) x y e)
kind-injective true true x y e = (refl, append-cancel (kind true) x y e)
kind-injective false true x y e = absurd (
    heads_differ (codes "ilter/" ++ x) (codes "at/" ++ y)
      (append-cancel (codes "/firewall/") (codes "filter/" ++ x) (codes "nat/" ++ y) e))
kind-injective true false x y e = absurd (
    heads_differ (codes "ilter/" ++ y) (codes "at/" ++ x)
      (append-cancel (codes "/firewall/") (codes "filter/" ++ y) (codes "nat/" ++ x) (sym e)))

rebuild : Bool → Text → Text → RuleCall
rebuild true [] r = nat r
rebuild true (a ∷ s) r = nat_counters r
rebuild false [] r = filter r
rebuild false (a ∷ []) r = filter r
rebuild false (a ∷ b ∷ s) r = if b == b'm' then filter_place r else filter_counters r

rebuild_lem : (c : RuleCall) → rebuild (is_nat c) (suffix c) (rule_of c) ≡ c
unfolding rebuild
rebuild_lem (filter r) = refl
rebuild_lem (filter_counters r) = refl
rebuild_lem (filter_place r) = refl
rebuild_lem (nat r) = refl
rebuild_lem (nat_counters r) = refl

abbrev parts : RuleCall → Text
parts c = kind (is_nat c) ++ (encode_uri_component (rule_of c) ++ suffix c)

address-parts :
    (env : Env) (d : Text) (c : RuleCall)
    → address env d c ≡ env.api_base ++ b'/' ∷ (codes "devices/" ++ (d ++ parts c))
unfolding address delete_filter_rule reset_filter_rule_counters move_filter_rule delete_nat_rule
    reset_nat_rule_counters
address-parts env d (filter r) = rw append-nil refl
address-parts env d (filter_counters r) = refl
address-parts env d (filter_place r) = refl
address-parts env d (nat r) = rw append-nil refl
address-parts env d (nat_counters r) = refl

-- On one device, two of these requests go to the same URL only if they are the same: the encoded id
-- of a rule can neither reach into another rule's URL nor into another part of the API. The ids
-- are texts of code points.
pub address-injective :
    (env : Env) (d : Text) (c c' : RuleCall)
    → All IsPoint (rule_of c)
    → All IsPoint (rule_of c')
    → address env d c ≡ address env d c'
    → c ≡ c'
address-injective env d c c' hc hc' e =
    let whole = sym (address-parts env d c) ∙ e ∙ address-parts env d c' in
    let path = append-cancel d (parts c) (parts c') (
      append-cancel (b'/' ∷ codes "devices/") (d ++ parts c) (d ++ parts c') (
        append-cancel env.api_base (b'/' ∷ (codes "devices/" ++ (d ++ parts c)))
          (b'/' ∷ (codes "devices/" ++ (d ++ parts c'))) whole)) in
    let (same_kind, rest) = kind-injective (is_nat c) (is_nat c') _ _ path in
    let (same_id, same_suffix) =
      split (encode_uri_component (rule_of c)) (encode_uri_component (rule_of c')) (suffix c)
        (suffix c') (encode_uri_component-IsPlain (rule_of c) hc)
        (encode_uri_component-IsPlain (rule_of c') hc') (suffix-IsSuffix c) (suffix-IsSuffix c')
        rest in
    let same_rule = encode_uri_component-injective (rule_of c) (rule_of c') hc hc' same_id in
    sym (rebuild_lem c) ∙ rw (same_kind, same_suffix, same_rule) refl ∙ rebuild_lem c'

-- The part of a URL before its query and its fragment, by which the server finds the endpoint.
pub url_path : Text → Text
url_path [] = []
url_path (c ∷ t) = let rest = url_path t in if c == b'?' || c == b'#' then [] else c ∷ rest

url_path-append : (s q : Text) → url_path (s ++ b'?' ∷ q) ≡ url_path s
unfolding url_path
url_path-append [] q = refl
url_path-append (c ∷ s) q = ground (arith, url_path-append s q)

url_path-left : (p s t : Text) → url_path s ≡ url_path t → url_path (p ++ s) ≡ url_path (p ++ t)
unfolding url_path
url_path-left [] s t e = e
url_path-left (c ∷ p) s t e = ground (arith, url_path-left p s t e)

-- `deleteDeviceGroup` puts the name into the path as it is: for a name with a question mark in it,
-- the request goes to the endpoint of the group that the text before the question mark names.
pub delete_device_group-truncates :
    (env : Env) (d name q : Text)
    → url_path (delete_device_group env d (name ++ b'?' ∷ q)).request.url
      ≡ url_path (delete_device_group env d name).request.url
unfolding delete_device_group
delete_device_group-truncates env d name q = url_path-left env.api_base _ _ (
    url_path-left (codes "/devices/") _ _
      (url_path-left d _ _ (url_path-left (codes "/system-groups/") _ _ (url_path-append name q))))
