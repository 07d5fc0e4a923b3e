-- ===== src/Pool/Tests.antt =====
-- Runs of the pool of crates/ucrs-decoder/src/symbols.rs, with a witness for each theorem.
use ucrashreport_server.Base.{List, [], false, length, none, refl, some, ◌∷◌, ◌≡◌, ◌≤◌}
use ucrashreport_server.Base.Results.{err, ok}
use ucrashreport_server.BuildId.{ascii_lowercase, build_id_link, path_join}
use ucrashreport_server.Pool.Collect.{
  buildid_dir, drop_dangling, drop_stale, gc, is_before, last_used, parse_stamp, snapshot_dir,
}
use ucrashreport_server.Pool.Downloads.{download-le}
use ucrashreport_server.Pool.Ensured.{IsEnsured, ensure_kernel-IsEnsured}
use ucrashreport_server.Pool.Fetch.{
  content_length_of, download, fetch_expected_sha256, find_sum, max_tarball_size, read_chunks,
  read_local, read_response, sum_of, sums_line, sums_of,
}
use ucrashreport_server.Pool.Index.{
  debug_dir, debug_link, extract_loop, extract_tarball, file_build_id, in_debug, index_build_ids,
  index_file, index_id, index_loop, link_file, place_link,
}
use ucrashreport_server.Pool.Kernel.{
  checksum_ok, ensure_kernel, ensure_tree, eq_ignore_ascii_case, fetch_kernel, finish_extract,
  install_kernel, is_stale_build, kernel_dest, kernel_url, stamp_bytes, use_cached,
}
use ucrashreport_server.Pool.Libs.{
  PoolLibs, SymbolPool, chunk, entry, invalid_name, no_chunk, no_entry,
}
use ucrashreport_server.Pool.Paths.{
  Files, Node, absolute, can_create_dir, canonicalize, file_len, follow, is_below, is_directory,
  is_symlink, make_symlink, name_below, node_at, parent_of, path_exists, read_dir, read_file,
  regular, remove_dir_all, remove_file, rooted, second_level, symlink, walk_two_levels, write_file,
}
use ucrashreport_server.Pool.Pinned.{gc-kept}
use ucrashreport_server.Text.{
  Text, codes, contains, get_entry, magnitude, replace, show_nat, split_sign, text_runs,
}
use ucrashreport_server.Text.Utf8.{as_bytes, from_utf8}

unfoldable pool_runs : Unit {0}
unfolding ensure_kernel ensure_tree use_cached fetch_kernel install_kernel finish_extract download
    read_response read_local read_chunks content_length_of max_tarball_size fetch_expected_sha256
    sums_of sum_of find_sum sums_line checksum_ok extract_tarball extract_loop in_debug
    index_build_ids index_loop index_file link_file place_link index_id debug_dir debug_link
    can_create_dir make_symlink remove_file file_len node_at absolute follow parent_of is_directory
    file_build_id kernel_dest kernel_url is_stale_build eq_ignore_ascii_case stamp_bytes gc
    drop_stale drop_dangling last_used is_before parse_stamp read_dir walk_two_levels second_level
    name_below canonicalize read_file path_exists is_symlink is_below remove_dir_all build_id_link
    path_join show_nat replace magnitude split_sign as_bytes from_utf8 ascii_lowercase text_runs
pool_runs = tt

-- A server with one tarball, which holds a kernel.
abbrev toy_libs : PoolLibs
toy_libs = record {
  http_get = λ url. some (record { content_length = some 3; body = chunk (codes "tar") no_chunk });
  http_text = λ url. some (codes "tar *k.zst\n");
  hex_sha256 = λ bytes. bytes;
  hex_encode = λ bytes. bytes;
  to_lowercase = λ t. t;
  elf_build_id = λ bytes. some bytes;
  tar_entries = λ bytes.
      entry (record { path = codes "debug/vmlinux"; content = codes "beef" })
        (entry (record { path = codes "README"; content = codes "x" }) no_entry);
  unpack_in = λ dest e files. some (write_file (path_join dest e.path) e.content files);
}

abbrev toy_pool : SymbolPool
toy_pool = record {
  dir = codes "/s";
  release_url = codes "http://h/{version}/{target}/k.zst";
  snapshot_url = codes "http://h/snapshot/{target}/k.zst";
}

abbrev toy_dest : Text
toy_dest = codes "/s/kernel/9/ath/gen"

abbrev toy_nodes : List (Text × Node)
toy_nodes =
    (codes "/s/kernel/9/ath/gen/last_used", regular (codes "1700"))
    ∷ (codes "/s/.build-id/be/ef.debug", symlink (codes "/s/kernel/9/ath/gen/debug/vmlinux"))
    ∷ (codes "/s/kernel/9/ath/gen/debug/vmlinux", regular (codes "beef"))
    ∷ []

abbrev toy_files : Files
toy_files = rooted toy_nodes

abbrev no_files : Files
no_files = rooted []

downloads :
    download toy_libs (codes "http://h/9/ath/gen/k.zst") no_files ≡ (ok (codes "tar"), no_files)
unfolding pool_runs
downloads = refl

fetches :
    ensure_kernel toy_libs toy_pool 1700 (codes "9") (codes "ath/gen") none no_files
    ≡ (ok toy_dest, toy_files)
unfolding pool_runs
fetches = refl

uses_cached :
    (ensure_kernel toy_libs toy_pool 1701
      (codes "9")
      (codes "ath/gen")
      (some (codes "BEEF"))
      toy_files).0
    ≡ ok toy_dest
unfolding pool_runs
uses_cached = refl

refuses_dots :
    ensure_kernel toy_libs toy_pool 1700 (codes "..") (codes "ath/gen") none no_files
    ≡ (err invalid_name, no_files)
unfolding pool_runs
refuses_dots = refl

-- A stale tree of snapshots with a link to it, beside the tree of a release.
abbrev old_files : Files
old_files = rooted (
    (codes "/s/kernel/SNAPSHOT/ath/gen/last_used", regular (codes "5"))
    ∷ (codes "/s/kernel/SNAPSHOT/ath/gen/debug/vmlinux", regular (codes "f00d"))
    ∷ (codes "/s/.build-id/f0/0d.debug", symlink (codes "/s/kernel/SNAPSHOT/ath/gen/debug/vmlinux"))
    ∷ toy_nodes)

collects : gc toy_pool 604806 1 old_files ≡ toy_files
unfolding pool_runs
collects = refl

is_fresh : gc toy_pool 604805 1 old_files ≡ old_files
unfolding pool_runs
is_fresh = refl

download-le_example : (length (codes "tar") ≤ max_tarball_size) × (no_files ≡ no_files)
download-le_example =
    download-le toy_libs (codes "http://h/9/ath/gen/k.zst") no_files no_files (codes "tar")
      downloads

ensure_kernel-IsEnsured_example :
    (contains (codes "9") (codes "..") ≡ false)
    × (contains (codes "ath/gen") (codes "..") ≡ false)
    × (toy_dest ≡ kernel_dest toy_libs toy_pool 1700 (codes "9") (codes "ath/gen"))
    × IsEnsured toy_libs toy_pool 1700
        (kernel_url toy_libs toy_pool 1700 (codes "9") (codes "ath/gen"))
        none
        toy_dest
        no_files
        toy_files
ensure_kernel-IsEnsured_example =
    ensure_kernel-IsEnsured toy_libs toy_pool 1700 (codes "9") (codes "ath/gen") none toy_dest
      no_files toy_files fetches

is_release :
    (is_below
        (absolute old_files (snapshot_dir toy_pool))
        (codes "/s/kernel/9/ath/gen/debug/vmlinux")
      ≡ false)
    × (is_below
          (absolute old_files (buildid_dir toy_pool))
          (codes "/s/kernel/9/ath/gen/debug/vmlinux")
        ≡ false)
unfolding pool_runs
is_release = (refl, refl)

gc-kept_example :
    get_entry (codes "/s/kernel/9/ath/gen/debug/vmlinux") (gc toy_pool 604806 1 old_files).nodes
    ≡ get_entry (codes "/s/kernel/9/ath/gen/debug/vmlinux") old_files.nodes
gc-kept_example =
    gc-kept toy_pool 604806 1 old_files (codes "/s/kernel/9/ath/gen/debug/vmlinux") is_release.0
      is_release.1
