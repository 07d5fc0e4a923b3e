-- ===== src/Pool/Index.antt =====
-- `file_build_id`, `index_build_ids` and `extract_tarball` of crates/ucrs-decoder/src/symbols.rs.
use ucrashreport_server.Base.{
  Bool, List, Option, [], drop, false, if◌then◌else◌, ltb, none, not, some, take, true, ◌++◌, ◌||◌,
  ◌∷◌,
}
use ucrashreport_server.Base.Results.{err, ok}
use ucrashreport_server.Base.Steps.{asks, done_with, fails_if, puts, ◌>>=◌, ◌>>◌}
use ucrashreport_server.BuildId.{path_join}
use ucrashreport_server.Pool.Libs.{
  PoolLibs, PoolStep, TarStream, broken_archive, entry, io_error, no_entry,
}
use ucrashreport_server.Pool.Paths.{
  Files, can_create_dir, canonicalize, make_symlink, read_dir, read_file, remove_file,
}
use ucrashreport_server.Text.{Text, byte_len, codes, starts_with, text_eq}
use ucrashreport_server.Usign.{Bytes}
use mathlib.Core.Option

-- `Path::starts_with("debug")`, which compares components
unfoldable pub in_debug : Text → Bool
in_debug path = text_eq path (codes "debug") || starts_with path (codes "debug/")

-- `link_dir` and `link` of the loop, from the build-id
unfoldable pub debug_dir : Text → Text → Text
unfolding path_join
debug_dir pool_root id = path_join (path_join pool_root (codes ".build-id")) (take 2 id)

unfoldable pub debug_link : Text → Text → Text
unfolding debug_dir
debug_link pool_root id = path_join (debug_dir pool_root id) (drop 2 id ++ codes ".debug")

module _ (libs : PoolLibs) where
  abbrev pub build_id_of_bytes : Option Bytes → Option Text
  build_id_of_bytes none = none
  build_id_of_bytes (some bytes) = Option.map libs.hex_encode (libs.elf_build_id bytes)

  unfoldable pub file_build_id : Text → Files → Option Text
  file_build_id path files = build_id_of_bytes (read_file path files)

  -- `symlink(file.canonicalize()?, &link)?`
  unfoldable pub link_file : Text → Text → Files → Option Files
  unfolding canonicalize make_symlink
  link_file file link files = elim (canonicalize file files) [
    | none ↦ none
    | some target ↦ make_symlink target link files
  ]

  -- `link_file` on the state, which an error leaves
  unfoldable pub place_link : Text → Text → PoolStep (Unit {0})
  unfolding link_file
  place_link file link files = elim (link_file file link files) [
    | none ↦ (err io_error, files)
    | some files' ↦ (ok tt, files')
  ]

  -- The loop's body for a build-id that is long enough.
  unfoldable pub index_id : Text → Text → Text → PoolStep (Unit {0})
  unfolding place_link can_create_dir debug_dir debug_link remove_file
  index_id pool_root file id = do
    able ← asks (can_create_dir (debug_dir pool_root id))
    fails_if (not able) io_error
    puts (remove_file (debug_link pool_root id))
    place_link file (debug_link pool_root id)

  -- One file of the loop, with its build-id
  unfoldable pub index_file : Text → Text → Option Text → PoolStep (Unit {0})
  unfolding index_id
  index_file pool_root file none = done_with tt
  index_file pool_root file (some id) =
      if ltb (byte_len id) 4 then done_with tt else index_id pool_root file id

  -- The loop; an error ends it, and what was done stays.
  unfoldable pub index_loop : Text → List Text → PoolStep (Unit {0})
  unfolding index_file file_build_id
  index_loop pool_root [] = done_with tt
  index_loop pool_root (file ∷ rest) = do
    id ← asks (file_build_id file)
    _ ← index_file pool_root file id
    index_loop pool_root rest

  unfoldable pub index_build_ids : Text → Text → PoolStep (Unit {0})
  unfolding index_loop
  index_build_ids dest pool_root files =
      index_loop pool_root
        (path_join dest (codes "debug/vmlinux")
          ∷ read_dir (path_join dest (codes "debug/modules")) files)
        files

  -- The loop over the entries.
  unfoldable pub extract_loop : Text → TarStream → PoolStep (Unit {0})
  unfolding in_debug
  extract_loop dest no_entry files = (ok tt, files)
  extract_loop dest broken_archive files = (err io_error, files)
  extract_loop dest (entry e rest) files = elim (in_debug e.path) [
    | false ↦ extract_loop dest rest files
    | true ↦ elim (libs.unpack_in dest e files) [
      | none ↦ (err io_error, files)
      | some files' ↦ extract_loop dest rest files'
    ]
  ]

  unfoldable pub extract_tarball : Bytes → Text → PoolStep (Unit {0})
  unfolding extract_loop can_create_dir
  extract_tarball bytes dest = do
    able ← asks (can_create_dir dest)
    fails_if (not able) io_error
    extract_loop dest (libs.tar_entries bytes)
