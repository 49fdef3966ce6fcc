-- ===== src/Api.antt =====
-- The endpoint functions of frontend/src/lib: which request each sends, and how it reads the answer.
pub mod Ufw
pub mod Firewall
pub mod Network
pub mod Vpn
pub mod Dhcp
pub mod DeviceOps
pub mod Queues
pub mod SystemLogging
pub mod RouterSystem
pub mod Users
pub mod Roles
pub mod Devices
pub mod Settings
pub mod Bulk
pub mod Backups
pub mod AccessRequests
pub mod FirmwareOps
pub mod Packages
pub mod Linux
pub mod Sites
pub mod Tenants
pub mod AuditLog
pub mod Events
pub mod Reports
pub mod Updates
pub mod Notifications
pub mod Access
pub mod RiskReport
pub mod Drivers
pub mod HostHealth
pub mod Resources
pub mod SiteToSite
pub mod Addresses
pub mod Errors
mod Tests
use netfleet.Common.{
  List, [], ◌∷◌, ◌++◌, Bool, true, false, Option, none, some, Text, if◌then◌else◌,
}
use netfleet.Json.{Json}
use netfleet.Session.Client.{Env, Request, M, Result, ok, err, await_call, json_call, rethrow}

-- What a function of frontend/src/lib does with `api`: its request, whether it reads the body by
-- `.json()`, and whether it stands in `try … catch (e) { throw new Error(await readErrorMessage(e)); }`.
pub record Endpoint : Type 0 where
  pub request : Request
  pub reads_json : Bool
  pub rethrows : Bool

abbrev pub json_endpoint : Request → Endpoint
json_endpoint r = record { request = r; reads_json = true; rethrows = true }

abbrev pub void_endpoint : Request → Endpoint
void_endpoint r = record { request = r; reads_json = false; rethrows = true }

abbrev pub bare_endpoint : Request → Endpoint
bare_endpoint r = record { request = r; reads_json = true; rethrows = false }

-- The body that a function without `.json()` does not read.
abbrev unread : Result (Option Json) → Result Json
unread (ok body) = ok Json.null
unread (err e) = err e

-- A call of the function.
unfoldable pub perform : Env → Endpoint → M (Result Json)
perform env e w =
    let (w', r) =
      if e.reads_json
      then json_call env e.request w
      else ((await_call env e.request w).0, unread (await_call env e.request w).1) in
    (w', if e.rethrows then rethrow r else r)

-- A template literal, by its parts.
abbrev pub concat : List Text → Text
concat [] = []
concat (t ∷ []) = t
concat (t ∷ u ∷ ts) = t ++ concat (u ∷ ts)
