-- ===== src/Symbolizer.antt =====
-- Symbol lookups and the annotation of traces, `Binary`, `Symbolizer` and `annotate` of
-- crates/ucrs-decoder/src/symbols.rs.
mod Binary
mod Modules
mod Annotate
pub mod Caching
pub mod Matching
mod Tests
unfoldable pub use Binary.*
unfoldable pub use Modules.*
unfoldable pub use Annotate.*
