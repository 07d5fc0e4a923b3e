-- ===== src/Server/Post.antt =====
-- `post_report` of crates/ucrs-server/src/api.rs. Input and output on files succeeds.
use ucrashreport_server.Base.{
  Option, [], any, if◌then◌else◌, is_some, none, not, some, ◌&&◌, ◌++◌, ◌==◌, ◌∷◌,
}
use ucrashreport_server.Server.Crates.{Headers, Libs}
use ucrashreport_server.Server.Ingest.{
  Created, Draws, authenticate_device, parse_multipart, respond_created,
}
use ucrashreport_server.Server.Monad.{
  Handler, bad, gets, internal_error, modify, pure, raise_if, ◌>>=◌, ◌>>◌,
}
use ucrashreport_server.Store.{
  DecodeJob, Report, option_eq, pending, private_report, received, select_row,
}
use ucrashreport_server.Text.{Text, codes, set_entry, text_eq}
use ucrashreport_server.Types.{ReportMetadata, encoding_as_str, format_version, kind_as_str}
use ucrashreport_server.Usign.{Bytes}
use mathlib.Core.Option

pub data Chosen : Type 0 where
  already : Chosen
  store_as : Text → Chosen

-- The id for the report, given the row that has the id of the metadata, if there is one: that row's
-- report for the same device, and a fresh id on a collision.
unfoldable pub choose_id : Text → Text → Option Text → Option Report → Chosen
choose_id fresh uuid device none = store_as uuid
choose_id fresh uuid device (some row) =
    if is_some row.device_id && option_eq row.device_id device then already else store_as fresh

module _ {Key : Type 0} (libs : Libs Key) where
  -- The checks of `post_report` on what it has read.
  unfoldable pub check_report : ReportMetadata × Bytes → Handler (ReportMetadata × Bytes)
  check_report (meta, payload) = do
    raise_if (not (meta.format == format_version)) (bad (codes "unsupported format"))
    raise_if (not (text_eq (libs.hex_sha256 payload) (libs.to_lowercase meta.payload_sha256)))
        (bad (codes "payload_sha256 mismatch"))
    raise_if (not (libs.is_uuid meta.uuid)) (bad (codes "invalid uuid"))
    pure (meta, payload)

  unfoldable pub read_report : Headers → Bytes → Handler (ReportMetadata × Bytes)
  unfolding check_report
  read_report headers body = do report ← parse_multipart libs headers body; check_report report

  -- `INSERT INTO report`
  unfoldable pub report_row : Draws → Option Text → ReportMetadata → Text → Report
  report_row draws device meta id = record {
    id = id;
    device_id = device;
    kind = kind_as_str meta.kind;
    received_at = draws.insert_time;
    captured_at = meta.captured_at;
    version = meta.openwrt.version;
    revision = meta.openwrt.revision;
    target = meta.openwrt.target;
    arch = meta.openwrt.arch;
    board_name = meta.board;
    kernel = meta.kernel;
    kernel_buildid = Option.map libs.to_lowercase meta.kernel_buildid;
    payload_encoding = encoding_as_str meta.payload_encoding;
    state = received;
    visibility = private_report;
    group_id = none;
    publish_slug = none;
    raw_deleted_at = none;
  }

  unfoldable pub job_row : Draws → Text → DecodeJob
  job_row draws id = record {
    id = draws.job_id;
    report_id = id;
    state = pending;
    attempts = 0;
    last_error = none;
  }

  -- `tokio::fs::write` and the two inserts, each of which can fail on its primary key.
  unfoldable pub store_report :
      Draws → Option Text → ReportMetadata → Bytes → Text → Handler Created
  unfolding report_row job_row respond_created
  store_report draws device meta payload id = do
    modify (λ w. record w { raw_files = set_entry id payload w.raw_files })
    reports ← gets (λ w. w.db.reports)
    raise_if (any (λ r. text_eq r.id id) reports) internal_error
    modify (λ w. record w {
      db = record w.db { reports = reports ++ report_row draws device meta id ∷ [] };
    })
    jobs ← gets (λ w. w.db.jobs)
    raise_if (any (λ j. text_eq j.id draws.job_id) jobs) internal_error
    modify (λ w. record w { db = record w.db { jobs = jobs ++ job_row draws id ∷ [] } })
    pure (respond_created libs id)

  -- The answer, by the choice of the id.
  unfoldable pub finish_report :
      Draws → Option Text → ReportMetadata → Bytes → Chosen → Handler Created
  unfolding store_report respond_created
  finish_report draws device meta payload already = pure (respond_created libs meta.uuid)
  finish_report draws device meta payload (store_as id) = store_report draws device meta payload id

  -- `post_report` for a report that was read, and for a request that was authenticated.
  unfoldable pub accept_report : Draws → Option Text → ReportMetadata × Bytes → Handler Created
  unfolding choose_id finish_report
  accept_report draws device (meta, payload) = do
    reports ← gets (λ w. w.db.reports)
    finish_report draws device meta payload (
        choose_id draws.report_id meta.uuid device
          (select_row (λ r. text_eq r.id meta.uuid) reports))

  unfoldable pub admitted_report : Draws → Headers → Bytes → Option Text → Handler Created
  unfolding read_report accept_report
  admitted_report draws headers body device = do
    report ← read_report headers body
    accept_report draws device report

  unfoldable pub post_report : Draws → Headers → Bytes → Handler Created
  unfolding authenticate_device admitted_report
  post_report draws headers body = do
    device ← authenticate_device libs draws headers body
    admitted_report draws headers body device
