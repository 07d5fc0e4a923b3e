-- ===== src/Usign.antt =====
-- usign (signify) keys and signatures, crates/ucrs-common/src/usign.rs.
mod Defs
pub mod Blobs
mod Tests
unfoldable pub use Defs.*
