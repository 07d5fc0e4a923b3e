-- ===== src/Types.antt =====
-- Report metadata, crates/ucrs-common/src/types.rs.
mod Metadata
mod Encoding
pub mod RoundTrip
unfoldable pub use Metadata.*
unfoldable pub use Encoding.*
