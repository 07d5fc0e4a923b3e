-- ===== src/Web.antt =====
-- The dashboard, crates/ucrs-server/src/web.rs: its queries and its handlers.
mod Groups
mod Templates
mod Pages
mod Api
pub mod Ranking
pub mod Public
pub mod Access
pub mod Debug
mod Samples
mod GroupTests
mod PublicTests
mod AccessTests
mod DebugTests
unfoldable pub use Groups.*
unfoldable pub use Templates.*
unfoldable pub use Pages.*
unfoldable pub use Api.*
