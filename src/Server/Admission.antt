-- ===== src/Server/Admission.antt =====
-- The reading of a request in crates/ucrs-server/src/api.rs: the signature check and the body leave
-- the state alone, and depend on it in nothing.
use ucrashreport_server.Base.{Option, refl, ◌++◌}
use ucrashreport_server.Base.Results.{Result, err, ok}
use ucrashreport_server.Server.Crates.{Headers, Libs}
use ucrashreport_server.Server.Ingest.{check_signature, lift_json, parse_fields, parse_multipart}
use ucrashreport_server.Server.Monad.{bad}
use ucrashreport_server.Server.Post.{check_report, read_report}
use ucrashreport_server.Server.Runs.{IsReader, readers}
use ucrashreport_server.Text.{Text, codes}
use ucrashreport_server.Types.{ReportMetadata}
use ucrashreport_server.Usign.{Bytes}

module _ {Key : Type 0} (libs : Libs Key) where
  pub check_signature-IsReader :
      (headers : Headers) (body : Bytes) (pubkey : Text)
      → IsReader (check_signature libs headers body pubkey)
  unfolding check_signature
  check_signature-IsReader headers body pubkey = search readers

  lift_json-IsReader : (r : Result Text ReportMetadata) → IsReader (lift_json r)
  unfolding lift_json
  lift_json-IsReader (ok meta) = (ok meta, λ w. refl)
  lift_json-IsReader (err e) = (err (bad (codes "invalid metadata: " ++ e)), λ w. refl)

  parse_fields-IsReader :
      (fields : Option Text × Option Bytes) → IsReader (parse_fields libs fields)
  unfolding parse_fields
  parse_fields-IsReader fields = search (readers, lift_json-IsReader) depth 12

  parse_multipart-IsReader :
      (headers : Headers) (body : Bytes) → IsReader (parse_multipart libs headers body)
  unfolding parse_multipart
  parse_multipart-IsReader headers body = search (readers, parse_fields-IsReader) depth 12

  check_report-IsReader : (report : ReportMetadata × Bytes) → IsReader (check_report libs report)
  unfolding check_report
  check_report-IsReader report = search readers depth 8

  pub read_report-IsReader :
      (headers : Headers) (body : Bytes) → IsReader (read_report libs headers body)
  unfolding read_report
  read_report-IsReader headers body =
      search (readers, parse_multipart-IsReader, check_report-IsReader)
