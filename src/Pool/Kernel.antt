-- ===== src/Pool/Kernel.antt =====
-- `SymbolPool::ensure_kernel` of crates/ucrs-decoder/src/symbols.rs. The argument `now` is the time that
-- a stamp gets.
use ucrashreport_server.Base.{Bool, Option, false, if◌then◌else◌, not, some, true, ℕ, ◌&&◌, ◌||◌}
use ucrashreport_server.Base.Results.{Result, err, ok}
use ucrashreport_server.Base.Steps.{asks, done_with, fails_if, puts, ◌>>=◌, ◌>>◌}
use ucrashreport_server.BuildId.{ascii_lowercase, path_join}
use ucrashreport_server.Pool.Fetch.{download, fetch_expected_sha256}
use ucrashreport_server.Pool.Index.{extract_tarball, file_build_id, index_build_ids}
use ucrashreport_server.Pool.Libs.{
  PoolError, PoolLibs, PoolStep, SymbolPool, checksum_mismatch, invalid_name, no_vmlinux,
}
use ucrashreport_server.Pool.Paths.{path_exists, remove_dir_all, write_file}
use ucrashreport_server.Text.{Text, codes, contains, replace, show_nat, starts_with, text_eq}
use ucrashreport_server.Text.Utf8.{as_bytes}
use ucrashreport_server.Usign.{Bytes}

unfoldable pub stamp_bytes : ℕ → Bytes
unfolding show_nat
stamp_bytes now = as_bytes (show_nat now)

-- `str::eq_ignore_ascii_case`
unfoldable pub eq_ignore_ascii_case : Text → Text → Bool
eq_ignore_ascii_case a b = text_eq (ascii_lowercase a) (ascii_lowercase b)

-- Whether a cached tree is of another build.
unfoldable pub is_stale_build : Option Text → Option Text → Bool
unfolding eq_ignore_ascii_case
is_stale_build (some expected) (some got) = not (eq_ignore_ascii_case got expected)
is_stale_build _ _ = false

abbrev pub vmlinux_of : Text → Text
vmlinux_of dest = path_join dest (codes "debug/vmlinux")

abbrev pub stamp_of : Text → Text
stamp_of dest = path_join dest (codes "last_used")

-- `got != expected` for the checksum that was published, if one was
unfoldable pub checksum_ok : Result PoolError Text → Text → Bool
checksum_ok (ok expected) got = text_eq got expected
checksum_ok (err e) got = true

module _ (libs : PoolLibs) (pool : SymbolPool) (now : ℕ) where
  unfoldable pub kernel_dest : Text → Text → Text
  kernel_dest version target =
      path_join (path_join (path_join pool.dir (codes "kernel")) version) target

  unfoldable pub kernel_url : Text → Text → Text
  kernel_url version target =
      let template : Text =
        if text_eq version (codes "SNAPSHOT") then pool.snapshot_url else pool.release_url in
      replace (replace template (codes "{version}") version) (codes "{target}") target

  unfoldable pub finish_extract : Text → PoolStep Text
  unfolding index_build_ids stamp_bytes
  finish_extract dest = do
    there ← asks (λ files. path_exists (vmlinux_of dest) files)
    fails_if (not there) no_vmlinux
    puts (λ files. (index_build_ids libs dest pool.dir files).1)
    puts (λ files. write_file (stamp_of dest) (stamp_bytes now) files)
    done_with dest

  -- `ensure_kernel` with the tarball of the URL.
  unfoldable pub install_kernel : Text → Text → Bytes → PoolStep Text
  unfolding finish_extract fetch_expected_sha256 extract_tarball checksum_ok
  install_kernel url dest tarball = do
    fails_if
        (not (starts_with url (codes "file://"))
          && not (checksum_ok (fetch_expected_sha256 libs url) (libs.hex_sha256 tarball)))
        checksum_mismatch
    _ ← extract_tarball libs tarball dest
    finish_extract dest

  -- `ensure_kernel` from the URL on.
  unfoldable pub fetch_kernel : Text → Text → PoolStep Text
  unfolding download install_kernel
  fetch_kernel url dest = do tarball ← download libs url; install_kernel url dest tarball

  -- `ensure_kernel` for a tree that is there and of the right build.
  unfoldable pub use_cached : Text → PoolStep Text
  unfolding stamp_bytes
  use_cached dest = do
    puts (λ files. write_file (stamp_of dest) (stamp_bytes now) files)
    done_with dest

  -- `ensure_kernel` by the state of the tree: not there, stale or usable.
  unfoldable pub ensure_tree : Bool → Bool → Text → Text → PoolStep Text
  unfolding use_cached fetch_kernel
  ensure_tree false stale url dest = fetch_kernel url dest
  ensure_tree true false url dest = use_cached dest
  ensure_tree true true url dest = do puts (remove_dir_all dest); fetch_kernel url dest

  unfoldable pub ensure_kernel : Text → Text → Option Text → PoolStep Text
  unfolding ensure_tree kernel_dest kernel_url is_stale_build file_build_id
  ensure_kernel version target expected_buildid = do
    fails_if (contains version (codes "..") || contains target (codes "..")) invalid_name
    let dest : Text = kernel_dest version target
    there ← asks (λ files. path_exists (vmlinux_of dest) files)
    got ← asks (λ files. file_build_id libs (vmlinux_of dest) files)
    ensure_tree there (is_stale_build expected_buildid got) (kernel_url version target) dest
