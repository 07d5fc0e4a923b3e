-- ===== src/Lib.antt =====
-- Verification of ucrashreport-server, which receives kernel crash reports from devices, groups
-- them by a signature and shows them to developers.
--
-- The program has three crates. crates/ucrs-common holds what both binaries use: the types of a
-- report, the check of a device's signature, the crash signature, the lookup of debug files.
-- crates/ucrs-server takes reports over HTTP, keeps them in a database and in files, and lets
-- devices and developers log in. crates/ucrs-decoder is a worker that takes queued reports and
-- decodes them. They share the database with the schema of migrations/.
--
-- Which file models which part:
--
-- Base: Boolean tests, lists over the native numbers, results. Text: `str` as a list of code
-- points, with the methods that the sources call (`trim`, `split_once`, `lines`, ..).
-- Signature: crates/ucrs-common/src/signature.rs. `normalize_symbol`, `normalize_exception`,
-- `compute`, `strip_printk_prefix` and `parse_oops` keep their names; the loops are `trace_loop`,
-- `oops_loop` and `normalize_tokens`, each with its step.
-- Types: crates/ucrs-common/src/types.rs. Usign: crates/ucrs-common/src/usign.rs. BuildId:
-- crates/ucrs-common/src/buildid.rs, with `Path::join` and symbolic links.
-- Store: the tables of migrations/ as records, and SQL statements over one table as functions on
-- lists of rows.
-- Accounts: crates/ucrs-server/src/auth.rs, and the cleanup of crates/ucrs-server/src/main.rs.
-- Server: crates/ucrs-server/src/api.rs. `Monad` has the state `World` (`AppState` and the
-- directories that it leads to) and handlers, which keep what was done before an early return.
-- `Ingest` and `Post` are `authenticate_device`, `parse_multipart` and `post_report`, `Login` is
-- `device_challenge` and `device_login`, `Publish` is `set_visibility` and what uses it. Where a
-- function of the source is long it is several definitions, called in the order of its statements.
-- Config: crates/ucrs-common/src/config.rs, the fields with their defaults and the directories.
-- Payload: crates/ucrs-decoder/src/payload.rs. Scrub: crates/ucrs-decoder/src/scrub.rs.
-- Pool: `SymbolPool` of crates/ucrs-decoder/src/symbols.rs on a file system of files and links by
-- their absolute paths, with the working directory of the process (`Paths`): `Fetch` is `download`
-- and `fetch_expected_sha256`, `Index` is `index_build_ids` and `extract_tarball`, `Kernel` is
-- `ensure_kernel`, `Collect` is `gc`.
-- Symbolizer: `Binary`, `Symbolizer` and `annotate` of the same file.
-- Decoder: crates/ucrs-decoder/src/decode.rs and the loop of crates/ucrs-decoder/src/main.rs.
-- `Queue` has the jobs, for any decoding of a report, and `Report` has `decode_report`, which
-- calls Payload, Pool, Symbolizer, Scrub and Signature, and is put into the queue by `decode_job`.
-- Web: crates/ucrs-server/src/web.rs. `Groups` has its statements, `Pages` its handlers; a page is
-- what its template is given, and `with_dev` is the argument `Dev` of a handler. `Api` has the
-- handlers of crates/ucrs-server/src/api.rs that use these queries or the symbol pool.
--
-- Parameters stand for other crates: base64 and ed25519 (`Crypto`), password hashes and digests
-- (`Secrets`), multipart and JSON parsing (`Libs`), the SHA-256 of a signature, the file system of
-- a lookup, decompression (`Decompressors`), HTTP, archives and build-ids (`PoolLibs`), symbols
-- and locations (`SymbolLibs`), what a pattern finds (`Regex`), and the format of a time. Times
-- and random values are arguments, in the order in which the source draws them.
--
-- Loops are recursion on the list that they read. The stripping of the marks behind a frame is on
-- fuel, the length of the line: each round drops a character. The worker's loop is on fuel as
-- well, and the attempts that the waiting jobs have left are enough.
--
-- Not modelled: a request runs from its start to its end before the next one, as the handlers'
-- calls of the database are not interleaved here. In the server files are read and written without
-- errors, and the database fails only where a uniqueness constraint of a table refuses a row; in
-- the decoder each write of a report's outcome may fail, the other statements succeed. In the pool
-- a directory is there as long as something is in it, it is no link, and a link leads to a file or
-- a directory, not to a link. Numbers of the database are far below their bounds. Start-up,
-- routing, logging and the markup of the pages are left out.
pub mod Base
pub mod Text
pub mod Signature
pub mod Types
pub mod Usign
pub mod BuildId
pub mod Store
pub mod Accounts
pub mod Server
pub mod Decoder
pub mod Payload
pub mod Config
pub mod Scrub
pub mod Pool
pub mod Symbolizer
pub mod Web
