-- ===== src/Setup/Tests.antt =====
-- Slugs, and the page on concrete fields.
use netfleet.Common.{
  ◌≡◌, refl, ◌≤◌, ◌⊎◌, none, some, [], ◌++◌, true, false, Text, codes, text_eq, is_space, trim,
  trim_start, trim_end, All, length,
}
use netfleet.Json.{Json}
use netfleet.Session.Storage.{ms}
use netfleet.Session.Client.{Env, Tab, response, ok, err}
use netfleet.Session.Auth.{perform_setup}
use netfleet.Setup.{
  Page, is_slug_char, dashed, strip_start, strip_end, take, without_last, js_length, slugify,
  derive, payload, refusal, submit,
}
use netfleet.Setup.Slug.{IsSlugChar, IsStart, slugify-IsSlug}
use netfleet.Setup.Guards.{IsFit, submit-guarded}

abbrev empty : Page
empty = record {
  org_name = [];
  org_slug = [];
  email = [];
  display_name = [];
  password = [];
  confirm = [];
  bootstrap_token = [];
  token_from_url = false;
  error = none;
  submitting = false;
  left_for = none;
}

runs : Unit {0}
unfolding is_slug_char dashed strip_start strip_end take without_last js_length slugify derive
    refusal submit text_eq is_space trim trim_start trim_end
runs = tt

abbrev same : Text → Text
same t = t

abbrev ten : Text
ten = codes "aaaaaaaaaa"

-- A slug that is cut can end with a dash.
slugs :
    (slugify same (codes " a & b! ") ≡ codes "a-b")
    × (slugify same (ten ++ ten ++ ten ++ ten ++ ten ++ ten ++ codes "aa bb")
        ≡ ten ++ ten ++ ten ++ ten ++ ten ++ ten ++ codes "aa-")
    × ((derive same (record empty { org_name = codes "ab"; org_slug = codes "a" })).org_slug
        ≡ codes "ab")
unfolding runs
slugs = (refl, refl, refl)

slugify-IsSlug_example :
    All IsSlugChar (slugify same (codes "a & b"))
    × IsStart (slugify same (codes "a & b"))
    × (length (slugify same (codes "a & b")) ≤ 63)
    × (derive same (derive same empty) ≡ derive same empty)
slugify-IsSlug_example = slugify-IsSlug same (codes "a & b") empty

abbrev accepting : Env
accepting = record {
  api_base = codes "/api/v1";
  date_ms = λ iso. ms 3600000;
  serve = λ sent r. (response 200 [] (some Json.null), 5);
}

abbrev tab : Tab
tab = record {
  storage = record {
    token = none;
    expires_at = ms 0;
    listeners = [];
    has_window = true;
    shadow = none;
    heard = [];
  };
  last_refresh_rejected = false;
  now = 100000;
  sent = [];
}

submit-guarded_example :
    let call = perform_setup accepting (payload empty) (trim []) tab in
    let out = submit accepting empty tab in
    (IsFit empty
      × (out.1 ≡ call.0)
      × (out.0.left_for
          ≡ elim call.1 [ ok v ↦ some (codes "/login?setup=complete") | err e ↦ none ]))
    ⊎ ((IsFit empty → ⊥)
        × (out.1 ≡ tab)
        × (out.0.left_for ≡ none)
        × ((m : Text) × (out.0.error ≡ some m)))
submit-guarded_example = submit-guarded accepting empty tab refl
