-- ===== src/BuildId.antt =====
-- Build-id lookups, crates/ucrs-common/src/buildid.rs.
mod FilePath
mod Resolve
mod Joins
pub mod Layout
mod Tests
unfoldable pub use FilePath.*
unfoldable pub use Resolve.*
