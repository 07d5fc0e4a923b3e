-- ===== src/Server/Own.antt =====
-- The list of a device's reports, `my_reports` of crates/ucrs-server/src/api.rs.
use ucrashreport_server.Base.{Bool, List, Option, keep, ltb, map, some, ℕ}
use ucrashreport_server.Server.Crates.{Libs}
use ucrashreport_server.Server.Login.{require_device}
use ucrashreport_server.Server.Monad.{Handler, gets, pure, ◌>>=◌}
use ucrashreport_server.Store.{Report, option_eq, order_by, state_text, visibility_text}
use ucrashreport_server.Text.{Text}

pub record OwnReport : Type 0 where
  pub report_id : Text
  pub kind : Text
  pub received_at : ℕ
  pub version : Text
  pub target : Text
  pub state : Text
  pub visibility : Text

unfoldable pub own_row : Report → OwnReport
own_row r = record {
  report_id = r.id;
  kind = r.kind;
  received_at = r.received_at;
  version = r.version;
  target = r.target;
  state = state_text r.state;
  visibility = visibility_text r.visibility;
}

-- `ORDER BY received_at DESC`
abbrev pub later_report : Report → Report → Bool
later_report a b = ltb b.received_at a.received_at

module _ {Key : Type 0} (libs : Libs Key) where
  unfoldable pub my_reports : ℕ → Option Text → Handler (List OwnReport)
  unfolding require_device own_row order_by
  my_reports now header = do
    device ← require_device libs now header
    reports ← gets (λ w. w.db.reports)
    pure (
        map own_row
          (order_by later_report (keep (λ r. option_eq r.device_id (some device)) reports)))
