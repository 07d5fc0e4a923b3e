-- ===== src/Web/DebugTests.antt =====
-- Runs of the lookup of debug files and of a device's list, crates/ucrs-server/src/api.rs, with a witness.
use ucrashreport_server.Base.{[], all, false, ltb, none, refl, some, true, ◌∷◌, ◌≡◌}
use ucrashreport_server.Base.Results.{ok}
use ucrashreport_server.BuildId.{ascii_lowercase, build_id_link, path_join, resolve}
use ucrashreport_server.Config.{symbols_dir}
use ucrashreport_server.Pool.{
  Files, Node, PoolLibs, absolute, can_create_dir, canonicalize, debug_dir, debug_link, follow,
  index_file, index_id, is_below, is_directory, link_file, make_symlink, no_entry, node_at,
  parent_of, path_exists, place_link, read_file, regular, remove_file, symlink,
}
use ucrashreport_server.Server.{my_reports, own_row}
use ucrashreport_server.Text.{
  Text, byte_len, codes, is_ascii_hexdigit, starts_with, text_eq, text_runs,
}
use ucrashreport_server.Web.Api.{
  debuginfod_debuginfo, group_json, groups_json, octets, unknown_build_id,
}
use ucrashreport_server.Web.Debug.{index_file-debuginfod_debuginfo}
use ucrashreport_server.Web.Samples.{
  first_report, second_report, third_report, toy_libs, web_bearer, web_config, web_runs, web_world,
}

abbrev no_pool : PoolLibs
no_pool = record {
  http_get = λ url. none;
  http_text = λ url. none;
  hex_sha256 = λ bytes. bytes;
  hex_encode = λ bytes. bytes;
  to_lowercase = λ t. t;
  elf_build_id = λ bytes. none;
  tar_entries = λ bytes. no_entry;
  unpack_in = λ dest e files. none;
}

abbrev debug_file : Text
debug_file = codes "data/symbols/kernel/vmlinux"

abbrev debug_node : Text × Node
debug_node = (codes "/srv/data/symbols/kernel/vmlinux", regular (codes "elf"))

-- The process works in /srv, where its data directory is.
abbrev debug_files : Files
debug_files = record { working_dir = codes "/srv"; nodes = debug_node ∷ [] }

abbrev indexed_files : Files
indexed_files = record debug_files {
  nodes =
      (
        codes "/srv/data/symbols/.build-id/be/ef.debug",
        symlink (codes "/srv/data/symbols/kernel/vmlinux"),
      )
      ∷ debug_node
      ∷ [];
}

unfoldable debug_runs : Unit {0}
unfolding index_file index_id place_link link_file canonicalize make_symlink can_create_dir
    debug_dir debug_link remove_file node_at absolute follow parent_of is_directory is_below
    build_id_link path_join symbols_dir ascii_lowercase debuginfod_debuginfo resolve path_exists
    read_file groups_json group_json my_reports own_row web_runs text_runs
debug_runs = tt

indexes :
    index_file no_pool (symbols_dir web_config) debug_file (some (codes "beef")) debug_files
    ≡ (ok tt, indexed_files)
unfolding debug_runs
indexes = refl

file_there :
    (starts_with debug_files.working_dir (codes "/") ≡ true)
    × (node_at debug_file debug_files ≡ some (regular (codes "elf")))
    × (text_eq
          (absolute debug_files (debug_link (symbols_dir web_config) (codes "beef")))
          (absolute debug_files debug_file)
        ≡ false)
unfolding debug_runs
file_there = (refl, refl, refl)

long_ids :
    (ltb (byte_len (codes "beef")) 4 ≡ false)
    × (ltb (byte_len (codes "BEEF")) 4 ≡ false)
    × (all is_ascii_hexdigit (codes "BEEF") ≡ true)
    × (ascii_lowercase (codes "BEEF") ≡ codes "beef")
unfolding debug_runs
long_ids = (refl, refl, refl, refl)

index_file-debuginfod_debuginfo_example :
    debuginfod_debuginfo web_config indexed_files (codes "BEEF") ≡ octets (codes "elf")
index_file-debuginfod_debuginfo_example =
    let (root, there, apart) = file_there in
    let (long, wide, hex, lower) = long_ids in
    index_file-debuginfod_debuginfo no_pool web_config debug_file (codes "beef") (codes "BEEF")
      (codes "elf") debug_files indexed_files root there apart long wide hex lower indexes

unknown : debuginfod_debuginfo web_config indexed_files (codes "../beef") ≡ unknown_build_id
unfolding debug_runs
unknown = refl

lists :
    (my_reports toy_libs 60 web_bearer web_world).0
    ≡ ok (own_row third_report ∷ own_row second_report ∷ own_row first_report ∷ [])
unfolding debug_runs
lists = refl
