-- ===== src/Text.antt =====
-- Rust's `str` and `char` operations that the sources use, over texts as lists of code points.
-- Positions count characters, where Rust's count bytes of UTF-8: a position found in a text is
-- only used to cut that text. Where the source measures bytes, `byte_len` does.
mod Chars
mod Search
mod Trim
mod Lines
mod Run
mod Entries
pub mod Utf8
mod Numbers
pub mod Before
pub mod Trimming
pub mod Words
pub mod Splits
pub mod Pieces
pub mod Breaks
unfoldable pub use Chars.*
unfoldable pub use Search.*
unfoldable pub use Trim.*
unfoldable pub use Lines.*
unfoldable pub use Run.*
unfoldable pub use Entries.*
unfoldable pub use Numbers.*
