-- ===== src/Pool/Collect.antt =====
-- `SymbolPool::gc` of crates/ucrs-decoder/src/symbols.rs.
use ucrashreport_server.Base.{
  Bool, List, Option, [], false, if◌then◌else◌, ltb, none, not, some, suc, true, zero, ℕ, ◌&&◌, ◌*◌,
  ◌+◌, ◌∷◌,
}
use ucrashreport_server.BuildId.{path_join}
use ucrashreport_server.Pool.Libs.{SymbolPool}
use ucrashreport_server.Pool.Paths.{
  Files, is_symlink, path_exists, read_file, remove_dir_all, remove_file, walk_two_levels,
}
use ucrashreport_server.Text.{Text, codes, magnitude, split_sign, trim}
use ucrashreport_server.Text.Utf8.{from_utf8}
use ucrashreport_server.Types.{negsuc, pos, ℤ}
use ucrashreport_server.Usign.{Bytes}

-- `s.trim().parse::<i64>()`, and 0 on an error
abbrev pub signed_value : Bool → Option ℕ → ℤ
signed_value negative none = pos 0
signed_value false (some n) = if ltb n 0x8000_0000_0000_0000 then pos n else pos 0
signed_value true (some zero) = pos 0
signed_value true (some (suc n)) = if ltb n 0x8000_0000_0000_0000 then negsuc n else pos 0

unfoldable pub parse_stamp : Text → ℤ
parse_stamp s =
    let (negative, digits) = split_sign (trim s) in signed_value negative (magnitude 10 digits)

abbrev pub stamp_text : Option Bytes → Option Text
stamp_text none = none
stamp_text (some bytes) = from_utf8 bytes

abbrev pub stamp_value : Option Text → ℤ
stamp_value none = pos 0
stamp_value (some s) = parse_stamp s

unfoldable pub last_used : Text → Files → ℤ
unfolding parse_stamp
last_used target_dir files =
    stamp_value (stamp_text (read_file (path_join target_dir (codes "last_used")) files))

-- `t < now - age`, over the integers
unfoldable pub is_before : ℤ → ℕ → ℕ → Bool
is_before (pos t) now age = ltb (t + age) now
is_before (negsuc t) now age = ltb age (now + suc t)

abbrev pub retention_secs : ℕ → ℕ
retention_secs weeks = weeks * 7 * 86400

-- The loop over the trees of snapshots.
unfoldable pub drop_stale : ℕ → ℕ → List Text → Files → Files
unfolding last_used is_before remove_dir_all
drop_stale now weeks [] files = files
drop_stale now weeks (dir ∷ dirs) files = drop_stale now weeks dirs (
    if is_before (last_used dir files) now (retention_secs weeks)
    then remove_dir_all dir files
    else files)

-- The loop over the links.
unfoldable pub drop_dangling : List Text → Files → Files
drop_dangling [] files = files
drop_dangling (link ∷ links) files = drop_dangling links (
    if is_symlink link files && not (path_exists link files) then remove_file link files else files)

module _ (pool : SymbolPool) where
  abbrev pub snapshot_dir : Text
  snapshot_dir = path_join (path_join pool.dir (codes "kernel")) (codes "SNAPSHOT")

  abbrev pub buildid_dir : Text
  buildid_dir = path_join pool.dir (codes ".build-id")

  unfoldable pub gc : ℕ → ℕ → Files → Files
  unfolding drop_stale drop_dangling walk_two_levels
  gc now retention_weeks files =
      let kept : Files =
        drop_stale now retention_weeks (walk_two_levels snapshot_dir files) files in
      drop_dangling (walk_two_levels buildid_dir kept) kept
