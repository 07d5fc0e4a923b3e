-- ===== src/Signature.antt =====
-- The crash signature, crates/ucrs-common/src/signature.rs: symbol and exception normalisation,
-- the signature of a trace, log prefixes and the parser of oops texts.
mod Data
mod Symbol
mod Exception
mod Compute
mod Prefix
mod Oops
pub mod Cut
pub mod Suffixes
pub mod Modules
pub mod Trace
pub mod Line
pub mod Markers
pub mod Section
pub mod LastSection
pub mod Stability
mod Tests
pub use Data.*
unfoldable pub use Symbol.*
unfoldable pub use Exception.*
unfoldable pub use Compute.*
unfoldable pub use Prefix.*
unfoldable pub use Oops.*
