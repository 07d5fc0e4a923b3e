-- ===== src/Pool/Libs.antt =====
-- What crates/ucrs-decoder/src/symbols.rs takes from other crates.
use ucrashreport_server.Base.{Option, ℕ}
use ucrashreport_server.Base.Steps.{Step}
use ucrashreport_server.Config.{Config, symbols_dir}
use ucrashreport_server.Pool.Paths.{Files}
use ucrashreport_server.Text.{Text}
use ucrashreport_server.Usign.{Bytes}

-- A response's body, in chunks, which may break off.
pub data Chunks : Type 0 where
  no_chunk broken_body : Chunks
  chunk : Bytes → Chunks → Chunks

pub record Response : Type 0 where
  pub content_length : Option ℕ
  pub body : Chunks

pub record TarEntry : Type 0 where
  pub path : Text
  pub content : Bytes

-- The entries of an archive, which may break off.
pub data TarStream : Type 0 where
  no_entry broken_archive : TarStream
  entry : TarEntry → TarStream → TarStream

pub record PoolLibs : Type 0 where
  -- `reqwest::get` and `error_for_status`; the text of a response for `sha256sums`
  pub http_get : Text → Option Response
  pub http_text : Text → Option Text
  -- `hex::encode(Sha256::digest(bytes))`, `hex::encode`
  pub hex_sha256 : Bytes → Text
  pub hex_encode : Bytes → Text
  -- `str::to_lowercase`, with the tables of Unicode
  pub to_lowercase : Text → Text
  -- `object::File::parse` and `build_id`
  pub elf_build_id : Bytes → Option Bytes
  -- the crates `zstd` and `tar` on a tarball, and `unpack_in`, `none` on an error
  pub tar_entries : Bytes → TarStream
  pub unpack_in : Text → TarEntry → Files → Option Files

pub data PoolError : Type 0 where
  invalid_name io_error network_error tarball_too_large : PoolError
  checksum_mismatch no_vmlinux invalid_url no_sums_entry : PoolError

pub record SymbolPool : Type 0 where
  pub dir : Text
  pub release_url : Text
  pub snapshot_url : Text

abbrev pub PoolStep : Type 0 → Type 0
PoolStep A = Step Files PoolError A

-- `SymbolPool::new`
unfoldable pub new_pool : Config → SymbolPool
new_pool cfg = record {
  dir = symbols_dir cfg;
  release_url = cfg.symbols.kernel_release;
  snapshot_url = cfg.symbols.kernel_snapshot;
}
