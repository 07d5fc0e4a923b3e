-- ===== src/BuildId/Tests.antt =====
-- The tests of crates/ucrs-common/src/buildid.rs, and witnesses.
use ucrashreport_server.Base.{Bool, none, refl, some, true, ◌≡◌}
use ucrashreport_server.BuildId.FilePath.{path_join}
use ucrashreport_server.BuildId.Layout.{IsLink, resolve-IsLink}
use ucrashreport_server.BuildId.Resolve.{ascii_lowercase, resolve}
use ucrashreport_server.Text.{Text, codes, text_eq, text_runs}

abbrev only : Text → Text → Bool
only file path = text_eq path file

abbrev indexed : Text → Bool
indexed = only (codes "/pool/.build-id/8d/74ef44.debug")

resolves_indexed_id :
    (resolve indexed (codes "/pool") (codes "8d74ef44")
      ≡ some (codes "/pool/.build-id/8d/74ef44.debug"))
    × (resolve indexed (codes "/pool") (codes "8d74ef45") ≡ none)
    × (resolve indexed (codes "/pool") (codes "../../etc/passwd") ≡ none)
    × (resolve indexed (codes "/pool") (codes "ab") ≡ none)
unfolding resolve text_runs ascii_lowercase path_join
resolves_indexed_id = (refl, refl, refl, refl)

resolve-IsLink_example :
    IsLink (codes "/pool") (codes "/pool/.build-id/8d/74ef44.debug")
    × (indexed (codes "/pool/.build-id/8d/74ef44.debug") ≡ true)
resolve-IsLink_example =
    resolve-IsLink indexed (codes "/pool") (codes "8d74ef44") resolves_indexed_id.0
