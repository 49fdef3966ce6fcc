-- ===== src/Audit.antt =====
-- The audit view (frontend/src/app/dashboard/audit/page.tsx): how a page of entries is grouped by
-- sign-in session.
pub mod Groups
pub mod Sessions
mod Tests
use netfleet.Common.{List, [], ◌∷◌, ◌++◌, Option, none, some, Text, text_eq, codes, if◌then◌else◌}
use netfleet.Json.{Fields}

pub data AuditOutcome : Type 0 where
  ok denied failed : AuditOutcome

-- frontend/src/lib/audit.ts
pub record AuditLogEntry : Type 0 where
  pub id : Text
  pub ts : Text
  pub user_id : Option Text
  pub user_email : Option Text
  pub user_name : Option Text
  pub section : Text
  pub action : Text
  pub outcome : AuditOutcome
  pub device_id : Option Text
  pub device_name : Option Text
  pub site_id : Option Text
  pub site_name : Option Text
  pub ip_address : Option Text
  pub user_agent : Option Text
  pub request_payload : Option Fields
  pub response_meta : Option Fields
  pub error_message : Option Text
  pub session_id : Option Text

pub record Group : Type 0 where
  pub key : Text
  pub session_id : Option Text
  pub rows : List AuditLogEntry

unfoldable pub or_else : Option Text → Text → Text
or_else (some t) u = t
or_else none u = u

-- `e.session_id ?? `none:${e.user_id ?? "system"}``
unfoldable pub key_of : AuditLogEntry → Text
unfolding or_else
key_of e = or_else e.session_id (codes "none:" ++ or_else e.user_id (codes "system"))

abbrev pub new_group : AuditLogEntry → Group
new_group e = record { key = key_of e; session_id = e.session_id; rows = e ∷ [] }

-- The body of the loop: the entry joins the last group, or begins the next.
unfoldable pub add : AuditLogEntry → List Group → List Group
add e [] = new_group e ∷ []
add e (g ∷ []) =
    if text_eq g.key (key_of e)
    then record g { rows = g.rows ++ e ∷ [] } ∷ []
    else g ∷ new_group e ∷ []
add e (g ∷ h ∷ out) = g ∷ add e (h ∷ out)

unfoldable pub add_all : List AuditLogEntry → List Group → List Group
add_all [] out = out
add_all (e ∷ items) out = add_all items (add e out)

unfoldable pub group_by_session : List AuditLogEntry → List Group
group_by_session items = add_all items []
