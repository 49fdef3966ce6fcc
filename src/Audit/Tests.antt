-- ===== src/Audit/Tests.antt =====
-- The audit view on a concrete page.
use netfleet.Common.{
  ℕ, ◌≡◌, refl, ◌≢◌, List, [], ◌∷◌, Option, none, some, Text, codes, map, text_eq,
}
use netfleet.Audit.{
  AuditOutcome, AuditLogEntry, Group, key_of, or_else, add, add_all, group_by_session,
}
use netfleet.Audit.Groups.{IsGrouping, group_by_session-IsGrouping}

abbrev entry_of : Option Text → Option Text → AuditLogEntry
entry_of session user = record {
  id = codes "1";
  ts = codes "2026-01-01";
  user_id = user;
  user_email = none;
  user_name = none;
  section = codes "devices";
  action = codes "update";
  outcome = AuditOutcome.ok;
  device_id = none;
  device_name = none;
  site_id = none;
  site_name = none;
  ip_address = none;
  user_agent = none;
  request_payload = none;
  response_meta = none;
  error_message = none;
  session_id = session;
}

-- Two entries of one session, one of another, one more of the first, and one of the system.
abbrev page : List AuditLogEntry
page =
    entry_of (some (codes "a")) none
    ∷ entry_of (some (codes "a")) none
    ∷ entry_of (some (codes "b")) none
    ∷ entry_of (some (codes "a")) none
    ∷ entry_of none none
    ∷ []

keys :
    map (λ (g : Group). g.key) (group_by_session page)
    ≡ codes "a" ∷ codes "b" ∷ codes "a" ∷ codes "none:system" ∷ []
unfolding group_by_session add_all add key_of or_else text_eq
keys = refl

group_by_session-IsGrouping_example : IsGrouping page (group_by_session page)
group_by_session-IsGrouping_example = group_by_session-IsGrouping page

differ : (c d : ℕ) (t : Text) → ◌≢◌ {A = Option Text} (some (c ∷ [])) (some (b'n' ∷ d ∷ t))
differ c d t e = cc
