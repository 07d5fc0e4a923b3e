-- ===== src/BuildId/Resolve.antt =====
-- `resolve` of crates/ucrs-common/src/buildid.rs. The file system is the argument `path_exists`.
use ucrashreport_server.Base.{
  Bool, Option, all, drop, if◌then◌else◌, ltb, map, none, not, some, take, ◌++◌, ◌||◌,
}
use ucrashreport_server.BuildId.FilePath.{path_join}
use ucrashreport_server.Text.{Text, byte_len, codes, is_ascii_hexdigit, to_ascii_lowercase}

-- `str::to_lowercase` of an ASCII text.
unfoldable pub ascii_lowercase : Text → Text
unfolding to_ascii_lowercase
ascii_lowercase = map to_ascii_lowercase

-- The link of a build-id in the pool.
unfoldable pub build_id_link : Text → Text → Text
build_id_link pool_root build_id =
    path_join (path_join (path_join pool_root (codes ".build-id")) (take 2 build_id))
      (drop 2 build_id ++ codes ".debug")

-- The text is ASCII where it is put into lower case, since all of it is hexadecimal.
unfoldable pub resolve : (Text → Bool) → Text → Text → Option Text
unfolding build_id_link
resolve path_exists pool_root build_id =
    if ltb (byte_len build_id) 4 || not (all is_ascii_hexdigit build_id)
    then none
    else let link = build_id_link pool_root (ascii_lowercase build_id) in
      if path_exists link then some link else none
