-- ===== src/BuildId/FilePath.antt =====
-- `Path::join` of the standard library on Unix, as crates/ucrs-common/src/buildid.rs and the symbol
-- pool use it: an absolute second path replaces the first.
use ucrashreport_server.Base.{if◌then◌else◌, is_empty, ◌++◌, ◌||◌, ◌∷◌}
use ucrashreport_server.Text.{Text, codes, ends_with, starts_with}

unfoldable pub path_join : Text → Text → Text
path_join dir p =
    if starts_with p (codes "/")
    then p
    else if is_empty dir || ends_with dir (codes "/")
    then dir ++ p
    else dir ++ (b'/' ∷ p)
