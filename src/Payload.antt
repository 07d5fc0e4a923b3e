-- ===== src/Payload.antt =====
-- Decompression of payloads, crates/ucrs-decoder/src/payload.rs.
mod Capped
pub mod Reading
mod Tests
unfoldable pub use Capped.*
