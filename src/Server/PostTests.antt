-- ===== src/Server/PostTests.antt =====
-- Runs of `post_report` of crates/ucrs-server/src/api.rs, with a witness for each theorem.
use ucrashreport_server.Base.{List, ap, arith, refl, some, ℕ, ◌≡◌, ◌≢◌}
use ucrashreport_server.Base.Results.{err, ok}
use ucrashreport_server.Server.Devices.{with_devices}
use ucrashreport_server.Server.Ingest.{
  authenticate_device, authenticate_key, check_signature, field_step, fields_loop, lift_json,
  parse_fields, parse_multipart, register_device, respond_created, store_device, take_metadata,
  take_payload, upsert_device, upsert_row,
}
use ucrashreport_server.Server.Monad.{ApiError, bad, internal_error}
use ucrashreport_server.Server.Post.{
  accept_report, admitted_report, check_report, choose_id, finish_report, post_report, read_report,
  store_report,
}
use ucrashreport_server.Server.Posting.{IsPosted, post_report-IsPosted, post_report-rejected}
use ucrashreport_server.Server.Reupload.{post_report-again}
use ucrashreport_server.Server.Samples.{
  draws1, draws2, empty_world, known_world, posted_world, sample_headers, sample_meta, samples,
}
use ucrashreport_server.Server.Signed.{IsAuthenticated, authenticate_device-IsAuthenticated}
use ucrashreport_server.Store.{Device}
use ucrashreport_server.Text.{codes, get_entry, text_runs}
use ucrashreport_server.Usign.{check_blob, from_base64, key_of_blob, verify}

unfoldable post_runs : Unit {0}
unfolding post_report authenticate_device authenticate_key check_signature register_device
    store_device upsert_device upsert_row admitted_report read_report check_report parse_multipart
    parse_fields fields_loop field_step lift_json accept_report choose_id finish_report store_report
    from_base64 key_of_blob verify check_blob text_runs take_metadata take_payload
post_runs = tt

posted :
    post_report samples draws1 sample_headers (codes "m") empty_world
    ≡ (ok (respond_created samples (codes "r")), posted_world)
unfolding post_runs
posted = refl

refused :
    post_report samples draws1 sample_headers (codes "n") empty_world
    ≡ (err (bad (codes "payload_sha256 mismatch")), known_world)
unfolding post_runs
refused = refl

authenticated :
    authenticate_device samples draws1 sample_headers (codes "m") empty_world
    ≡ (ok (some (codes "d")), known_world)
unfolding post_runs
authenticated = refl

sample_read :
    read_report samples sample_headers (codes "m") empty_world
    ≡ (ok (sample_meta, codes "m"), empty_world)
unfolding post_runs
sample_read = refl

header_there : get_entry (codes "x-ucr-pubkey") sample_headers ≡ some (codes "k")
unfolding post_runs
header_there = refl

authenticate_device-IsAuthenticated_example :
    IsAuthenticated samples sample_headers
      (codes "m")
      (get_entry (codes "x-ucr-pubkey") sample_headers)
      (some (codes "d"))
      empty_world
      known_world
authenticate_device-IsAuthenticated_example =
    authenticate_device-IsAuthenticated samples draws1 sample_headers (codes "m") empty_world
      known_world (some (codes "d")) authenticated

post_report-IsPosted_example :
    IsPosted samples draws1 sample_headers
      (codes "m")
      (respond_created samples (codes "r"))
      empty_world
      posted_world
post_report-IsPosted_example =
    post_report-IsPosted samples draws1 sample_headers (codes "m") empty_world posted_world
      (respond_created samples (codes "r")) posted

abbrev status_of : ApiError → ℕ
status_of e = e.status

mismatch-eq : bad (codes "payload_sha256 mismatch") ≢ internal_error
mismatch-eq e = omega (arith, ap status_of e)

post_report-rejected_example : known_world ≡ with_devices empty_world known_world.db.devices
post_report-rejected_example =
    post_report-rejected samples draws1 sample_headers (codes "n") empty_world known_world
      (bad (codes "payload_sha256 mismatch")) refused mismatch-eq

post_report-again_example :
    (devices : List Device) × (post_report samples draws2 sample_headers (codes "m") posted_world
      ≡ (ok (respond_created samples (codes "r")), with_devices posted_world devices))
unfolding respond_created
post_report-again_example =
    post_report-again samples draws1 draws2 sample_headers (codes "m") empty_world posted_world
      (respond_created samples (codes "r")) (codes "k") sample_meta (codes "m") header_there posted
      sample_read refl
