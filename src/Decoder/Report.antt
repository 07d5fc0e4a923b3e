-- ===== src/Decoder/Report.antt =====
-- `decode_report` of crates/ucrs-decoder/src/decode.rs, with its three parts that change state as
-- stages of their own. What it writes may fail: each of those errors is a flag of the moment.
use ucrashreport_server.Base.{Bool, List, Option, [], if◌then◌else◌, none, some, ℕ, ◌∷◌}
use ucrashreport_server.Base.Results.{Result, err, ok}
use ucrashreport_server.Base.Steps.{
  Step, asks, done_with, fails_if, given, puts, some_or, ◌>>=◌, ◌>>◌,
}
use ucrashreport_server.Config.{Config}
use ucrashreport_server.Decoder.Queue.{Shared, gc_failed_raw}
use ucrashreport_server.Payload.{Decompressors, PayloadError, payload_decode}
use ucrashreport_server.Pool.{Files, PoolError, PoolLibs, ensure_kernel, gc, new_pool}
use ucrashreport_server.Scrub.{Regex, scrub}
use ucrashreport_server.Signature.{CrashSignature, Frame, compute, parse_oops}
use ucrashreport_server.Store.{CrashGroup, Db, Report, decoded, select_row, update_rows}
use ucrashreport_server.Symbolizer.{SymbolLibs, Symbolizer, annotate, have_symbols, new_symbolizer}
use ucrashreport_server.Text.{Text, codes, get_entry, join, remove_entry, set_entry, text_eq}
use ucrashreport_server.Types.{PayloadEncoding, encoding_from_str}

pub record DecodeLibs : Type 0 where
  pub crates : Decompressors
  pub pool_libs : PoolLibs
  pub symbol_libs : SymbolLibs
  pub regex : Regex
  -- `hex::encode(Sha256::digest(..))` of a text
  pub hex_digest : Text → Text

pub data DecodeError : Type 0 where
  loading_report reading_raw : DecodeError
  unknown_encoding : Text → DecodeError
  bad_payload : PayloadError → DecodeError
  writing_text upserting_group updating_report deleting_raw : DecodeError

-- The times of the two calls of `now`, the new random id, and which of the writes fail.
pub record Moment : Type 0 where
  pub stamp_time : ℕ
  pub ts : ℕ
  pub new_uuid : Text
  pub write_fails : Bool
  pub upsert_fails : Bool
  pub update_fails : Bool
  pub remove_fails : Bool

abbrev pub known_encoding : Result Text PayloadEncoding → Result DecodeError PayloadEncoding
known_encoding (ok e) = ok e
known_encoding (err m) = err (unknown_encoding m)

abbrev pub payload_text : Result PayloadError Text → Result DecodeError Text
payload_text (ok t) = ok t
payload_text (err e) = err (bad_payload e)

-- Symbols are best-effort: an error is none.
abbrev pub found_dir : Result PoolError Text → Option Text
found_dir (ok dir) = some dir
found_dir (err e) = none

abbrev pub has_signature : Text → CrashGroup → Bool
has_signature sig g = text_eq g.signature sig

-- `INSERT INTO crash_group .. ON CONFLICT(signature) DO UPDATE SET last_seen = excluded.last_seen
-- RETURNING id`, by the row that the new one conflicts with.
unfoldable pub upsert_group_row :
    Option CrashGroup → CrashGroup → List CrashGroup → Text × List CrashGroup
upsert_group_row none new groups = (new.id, new ∷ groups)
upsert_group_row (some g) new groups = (
  g.id,
  update_rows (has_signature new.signature) (λ h. record h { last_seen = new.last_seen }) groups,
)

unfoldable pub upsert_group : CrashGroup → List CrashGroup → Text × List CrashGroup
unfolding upsert_group_row
upsert_group new groups =
    upsert_group_row (select_row (has_signature new.signature) groups) new groups

abbrev pub set_decoded : Text → Text → ℕ → Db → Db
set_decoded report_id group ts db = record db {
  reports =
      update_rows (λ r. text_eq r.id report_id)
        (λ r. record r { state = decoded; group_id = some group; raw_deleted_at = some ts })
        db.reports;
}

module _ (libs : DecodeLibs) (cfg : Config) where
  -- The text with source locations, where the symbols are those of the kernel.
  unfoldable pub annotated_text : Option Text → Option Text → Text → Files → Text
  unfolding new_symbolizer have_symbols annotate
  annotated_text symbol_dir buildid text files =
      let symbolizer : Symbolizer =
        new_symbolizer libs.pool_libs libs.symbol_libs files symbol_dir buildid in
      if have_symbols symbolizer
      then (annotate libs.pool_libs libs.symbol_libs libs.regex files text symbolizer).0
      else text

  unfoldable pub oops_signature : Text → Option (Text × List Frame) → CrashSignature
  unfolding compute
  oops_signature kind (some (exception, frames)) = compute libs.hex_digest kind exception frames
  oops_signature kind none = compute libs.hex_digest kind (codes "unclassified") []

  -- The signature of a decoded text
  unfoldable pub text_signature : Text → Text → CrashSignature
  unfolding oops_signature parse_oops
  text_signature kind text = oops_signature kind (parse_oops text)

  unfoldable pub new_group : Moment → Report → CrashSignature → CrashGroup
  new_group m report sig = record {
    id = m.new_uuid;
    signature = sig.signature;
    kind = report.kind;
    title = sig.title;
    modules = join (codes " ") sig.modules;
    first_seen = m.ts;
    last_seen = m.ts;
    first_seen_version = report.version;
  }

  -- From the update of the report on.
  unfoldable pub finish_report_row : Moment → Text → Text → Step Shared DecodeError Text
  finish_report_row m report_id group = do
    fails_if m.update_fails updating_report
    puts (λ s. record s { db = set_decoded report_id group m.ts s.db })
    fails_if m.remove_fails deleting_raw
    puts (λ s. record s { raw_files = remove_entry report_id s.raw_files })
    done_with group

  -- The group of the signature.
  unfoldable pub store_group : CrashGroup → Shared → Result DecodeError Text × Shared
  unfolding upsert_group
  store_group new s =
      let (group, groups') = upsert_group new s.db.groups in
      (ok group, record s { db = record s.db { groups = groups' } })

  -- From the write of the decoded text on.
  unfoldable pub store_report_text : Moment → Report → Text → Text → Step Shared DecodeError Text
  unfolding store_group finish_report_row text_signature new_group
  store_report_text m report report_id text = do
    fails_if m.write_fails writing_text
    puts (λ s. record s { decoded_files = set_entry report_id text s.decoded_files })
    fails_if m.upsert_fails upserting_group
    group ← store_group (new_group m report (text_signature report.kind text))
    finish_report_row m report_id group

  -- The symbols of the report's kernel, if there are any.
  unfoldable pub find_symbols : Moment → Report → Shared → Result DecodeError (Option Text) × Shared
  unfolding ensure_kernel new_pool
  find_symbols m report s =
      let (r, files') =
        ensure_kernel libs.pool_libs (new_pool cfg) m.stamp_time report.version report.target
          report.kernel_buildid s.pool_files in
      (ok (found_dir r), record s { pool_files = files' })

  -- From the decoded payload on.
  unfoldable pub decode_text : Moment → Report → Text → Text → Step Shared DecodeError Text
  unfolding find_symbols annotated_text scrub store_report_text
  decode_text m report report_id text = do
    symbol_dir ← find_symbols m report
    scrubbed ←
        asks (λ s.
          scrub libs.regex (annotated_text symbol_dir report.kernel_buildid text s.pool_files))
    store_report_text m report report_id scrubbed

  unfoldable pub decode_report : Moment → Text → Step Shared DecodeError Text
  unfolding decode_text encoding_from_str payload_decode
  decode_report m report_id = do
    row ← asks (λ s. select_row (λ r. text_eq r.id report_id) s.db.reports)
    report ← some_or row loading_report
    file ← asks (λ s. get_entry report_id s.raw_files)
    raw ← some_or file reading_raw
    encoding ← given (known_encoding (encoding_from_str report.payload_encoding))
    text ← given (payload_text (payload_decode libs.crates raw encoding))
    decode_text m report report_id text

-- `format!("{e:#}")` on the error of a job
abbrev pub shown_error : (DecodeError → Text) → Result DecodeError Text → Result Text Text
shown_error show (ok group) = ok group
shown_error show (err e) = err (show e)

-- `decode_report` as `process_job` runs it, at the moment of the job.
unfoldable pub decode_job :
    DecodeLibs
    → Config
    → (DecodeError → Text)
    → (Text → Shared → Moment)
    → Text
    → Shared
    → Result Text Text × Shared
unfolding decode_report
decode_job libs cfg show moment report_id s =
    let (r, s') = decode_report libs cfg (moment report_id s) report_id s in
    (shown_error show r, s')

-- One round of the hourly collection of crates/ucrs-decoder/src/main.rs, with the time of the pool's
-- collection, and those of the raw payloads'.
unfoldable pub collect_hourly : Config → ℕ → ℕ → (Text → ℕ) → Shared → Shared
unfolding gc new_pool gc_failed_raw
collect_hourly cfg pool_time now later s =
    gc_failed_raw now later cfg.raw_failed_retention_days (record s {
      pool_files = gc (new_pool cfg) pool_time cfg.symbols.retention_weeks s.pool_files;
    })
