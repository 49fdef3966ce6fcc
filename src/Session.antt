-- ===== src/Session.antt =====
-- The session of a tab: the token's storage, the shared API client, and the sign-in calls.
pub mod Storage
pub mod Client
pub mod Auth
pub mod Refresh
mod Tests
