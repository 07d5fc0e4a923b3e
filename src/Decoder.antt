-- ===== src/Decoder.antt =====
-- The worker, crates/ucrs-decoder/src/decode.rs: the queue of decode jobs, and what a job does.
mod Queue
mod Report
pub mod Claims
pub mod Attempts
pub mod Rounds
pub mod Draining
pub mod Retention
pub mod Groups
pub mod Outcome
pub mod Lossless
pub mod Worker
mod Tests
mod ReportSamples
mod ReportTests
unfoldable pub use Queue.*
unfoldable pub use Report.*
