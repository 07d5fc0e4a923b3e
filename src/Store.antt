-- ===== src/Store.antt =====
-- The database that crates/ucrs-server and crates/ucrs-decoder share, with the schema of migrations/:
-- its rows, and the SQL statements of the sources as functions on lists of rows.
mod Rows
mod Tables
mod Sorting
pub mod Lookup
unfoldable pub use Rows.*
unfoldable pub use Tables.*
unfoldable pub use Sorting.*
