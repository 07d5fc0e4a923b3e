-- ===== src/Web/GroupTests.antt =====
-- Runs of the queries of crates/ucrs-server/src/web.rs, with a witness.
use ucrashreport_server.Base.{
  All, Member, [], false, inl, inr, is_empty, keep, length, map, refl, ℕ, ◌∷◌, ◌≡◌, ◌≤◌, ◌⊎◌,
}
use ucrashreport_server.Text.{Text, codes}
use ucrashreport_server.Web.Groups.{breakdown, group_row, is_counted, query_groups}
use ucrashreport_server.Web.Ranking.{query_groups-Member}
use ucrashreport_server.Web.Samples.{first_group, no_format, web_runs, web_world}

ranks :
    map {B = Text × ℕ}
      (λ row. (row.id, row.count))
      (query_groups no_format 9 (codes "7d") [] [] [] web_world.db)
    ≡ (codes "g", 2) ∷ (codes "h", 1) ∷ []
unfolding web_runs
ranks = refl

filters :
    map {B = Text × ℕ}
      (λ row. (row.id, row.count))
      (query_groups no_format 86406 (codes "24h") [] (codes "9") [] web_world.db)
    ≡ (codes "h", 1) ∷ []
unfolding web_runs
filters = refl

breaks_down :
    breakdown (λ r. r.version) (codes "g") web_world.db.reports
    ≡ record { key = codes "9"; count = 1 } ∷ record { key = codes "8"; count = 1 } ∷ []
unfolding web_runs
breaks_down = refl

has_rows :
    is_empty (keep (is_counted 9 (codes "7d") [] [] [] first_group) web_world.db.reports) ≡ false
unfolding web_runs
has_rows = refl

query_groups-Member_example :
    Member
      (group_row no_format
        (first_group, keep (is_counted 9 (codes "7d") [] [] [] first_group) web_world.db.reports))
      (query_groups no_format 9 (codes "7d") [] [] [] web_world.db)
    ⊎ (All
          (λ row.
            length (keep (is_counted 9 (codes "7d") [] [] [] first_group) web_world.db.reports)
            ≤ row.count)
          (query_groups no_format 9 (codes "7d") [] [] [] web_world.db)
        × (length (query_groups no_format 9 (codes "7d") [] [] [] web_world.db) ≡ 100))
query_groups-Member_example =
    query_groups-Member no_format 9 (codes "7d") [] [] [] web_world.db first_group (inr (inl refl))
      has_rows
