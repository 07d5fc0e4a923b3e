-- ===== src/Server.antt =====
-- The HTTP interface, crates/ucrs-server/src/api.rs.
mod Monad
mod Crates
mod Ingest
mod Post
mod Login
mod Publish
mod Own
mod Runs
mod Devices
mod Signed
mod Limits
mod Checks
mod Upload
mod Posting
mod Reupload
pub mod Nonces
mod Samples
mod PostTests
mod LoginTests
mod Sessions
mod Challenges
pub mod Visibility
pub mod Owners
mod Republish
mod PublishTests
mod Admission
pub use Monad.*
pub use Crates.*
pub use Ingest.*
pub use Post.*
unfoldable pub use Login.*
unfoldable pub use Publish.*
unfoldable pub use Own.*
pub use Runs.*
