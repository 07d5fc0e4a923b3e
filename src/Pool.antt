-- ===== src/Pool.antt =====
-- The pool of kernel symbols, `SymbolPool` of crates/ucrs-decoder/src/symbols.rs.
mod Paths
mod Libs
mod Fetch
mod Index
mod Kernel
mod Collect
pub mod Downloads
pub mod Ensured
pub mod Pinned
mod Tests
unfoldable pub use Paths.*
unfoldable pub use Libs.*
unfoldable pub use Fetch.*
unfoldable pub use Index.*
unfoldable pub use Kernel.*
unfoldable pub use Collect.*
