-- ===== src/Accounts.antt =====
-- Developer accounts, sessions and device tokens: crates/ucrs-server/src/auth.rs, and the hourly
-- cleanup of crates/ucrs-server/src/main.rs.
mod Defs
pub mod Sessions
pub mod Cleanup
mod Tests
unfoldable pub use Defs.*
