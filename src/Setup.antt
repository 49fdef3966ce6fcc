-- ===== src/Setup.antt =====
-- The page of the first run (frontend/src/app/setup/page.tsx): its fields, the slug that follows the name of
-- the organization, and what submitting it does.
pub mod Slug
pub mod Guards
mod Tests
use netfleet.Common.{
  ℕ, zero, suc, ◌+◌, Option, none, some, List, [], ◌∷◌, Bool, true, false, not, ◌&&◌, ◌||◌, ◌==◌,
  ltb, leb, Text, codes, text_eq, trim, if◌then◌else◌,
}
use netfleet.Json.{Json}
use netfleet.Session.Client.{Env, Tab, Result, ok, err, Failure, http, other}
use netfleet.Session.Auth.{SetupPayload, perform_setup}

-- `left_for` is where `router.replace` leads.
pub record Page : Type 0 where
  pub org_name : Text
  pub org_slug : Text
  pub email : Text
  pub display_name : Text
  pub password : Text
  pub confirm : Text
  pub bootstrap_token : Text
  pub token_from_url : Bool
  pub error : Option Text
  pub submitting : Bool
  pub left_for : Option Text

-- `[a-z0-9]`
unfoldable pub is_slug_char : ℕ → Bool
is_slug_char c = leb b'a' c && leb c b'z' || leb b'0' c && leb c b'9'

-- `.replace(/[^a-z0-9]+/g, "-")`, where `after` says whether the character before was replaced.
unfoldable pub dashed : Bool → Text → Text
unfolding is_slug_char
dashed after [] = []
dashed after (c ∷ t) =
    let kept = dashed false t in
    let run = dashed true t in
    if is_slug_char c then c ∷ kept else if after then run else b'-' ∷ run

-- `.replace(/^-+|-+$/g, "")`
unfoldable pub strip_start : Text → Text
strip_start [] = []
strip_start (c ∷ t) = let rest = strip_start t in if c == b'-' then rest else c ∷ t

unfoldable pub strip_end : Text → Text
strip_end [] = []
strip_end (c ∷ t) = let rest = strip_end t in if c == b'-' && text_eq rest [] then [] else c ∷ rest

-- `.slice(0, n)`
unfoldable pub take : ℕ → Text → Text
take zero t = []
take (suc n) [] = []
take (suc n) (c ∷ t) = c ∷ take n t

-- `.slice(0, -1)`. Where the last character has two units, the one that JavaScript leaves is no more to a
-- slug than none.
unfoldable pub without_last : Text → Text
without_last [] = []
without_last (c ∷ []) = []
without_last (c ∷ d ∷ t) = c ∷ without_last (d ∷ t)

-- `s.length`: a character beyond the first 65536 has two units.
unfoldable pub js_length : Text → ℕ
js_length [] = 0
js_length (c ∷ t) = (if ltb c 65536 then 1 else 2) + js_length t

module _ (lower : Text → Text) where
  unfoldable pub slugify : Text → Text
  unfolding trim dashed strip_start strip_end take
  slugify s = take 63 (strip_end (strip_start (dashed false (trim (lower s)))))

  -- The effect on the name and the slug.
  unfoldable pub derive : Page → Page
  unfolding slugify without_last
  derive p =
      if text_eq p.org_slug [] || text_eq p.org_slug (slugify (without_last p.org_name))
      then record p { org_slug = slugify p.org_name }
      else p

unfoldable pub payload : Page → SetupPayload
payload p = record {
  organization_name = p.org_name;
  organization_slug = p.org_slug;
  admin_email = p.email;
  admin_display_name = p.display_name;
  admin_password = p.password;
}

-- `(e as Error).message`
abbrev message : Failure → Text
message (other m) = m
message (http status reason body) = reason

abbrev pub refuse : Text → Page → Page
refuse m p = record p { error = some m }

-- The early returns of `onSubmit`: the message, if there is one.
unfoldable pub refusal : Page → Option Text
unfolding js_length trim
refusal p =
    if ltb (js_length p.password) 12
    then some (codes "Password must be at least 12 characters.")
    else if not (text_eq p.password p.confirm)
    then some (codes "Passwords do not match.")
    else if text_eq (trim p.bootstrap_token) []
    then some (
        codes
          "Bootstrap token is required. Use the URL printed by install.sh, or paste the value of NETFLEET_BOOTSTRAP_TOKEN from /opt/netfleet/.env.")
    else none

abbrev pub end_setup : Result (Unit {0}) → Page → Page
end_setup (ok v) p = record p {
  error = none;
  submitting = false;
  left_for = some (codes "/login?setup=complete");
}
end_setup (err e) p = record p { error = some (message e); submitting = false }

module _ (env : Env) where
  abbrev pub submit_unless : Option Text → Page → Tab → Page × Tab
  submit_unless (some m) p w = (refuse m p, w)
  submit_unless none p w =
      let call = perform_setup env (payload p) (trim p.bootstrap_token) w in
      (end_setup call.1 p, call.0)

  unfoldable pub submit : Page → Tab → Page × Tab
  unfolding refusal payload
  submit p w = submit_unless (refusal p) p w
