-- ===== src/Decoder/ReportTests.antt =====
-- Runs of `decode_report` of crates/ucrs-decoder/src/decode.rs, with a witness for each theorem.
use ucrashreport_server.Base.{[], arith, if◌then◌else◌, refl, some, ◌∷◌, ◌≡◌, ◌≤◌, ◌⊎◌}
use ucrashreport_server.Base.Results.{ok}
use ucrashreport_server.BuildId.{path_join}
use ucrashreport_server.Config.{symbols_dir}
use ucrashreport_server.Decoder.Attempts.{WithinAttempts}
use ucrashreport_server.Decoder.Draining.{IsDrained, attempts_left, left}
use ucrashreport_server.Decoder.Groups.{group_of, seen_group, upsert_group-group_of}
use ucrashreport_server.Decoder.Lossless.{IsRead, drain-kept}
use ucrashreport_server.Decoder.Outcome.{IsDecoded, Outcome, decode_report-Outcome, stored_text}
use ucrashreport_server.Decoder.Queue.{Shared, drain}
use ucrashreport_server.Decoder.Report.{
  DecodeError, Moment, annotated_text, decode_job, decode_report, decode_text, find_symbols,
  finish_report_row, new_group, oops_signature, store_group, store_report_text, text_signature,
  upsert_group, upsert_group_row,
}
use ucrashreport_server.Decoder.ReportSamples.{
  new_report, new_row, no_faults, oops_text, plain_libs, toy_config, uploaded_state,
}
use ucrashreport_server.Decoder.Rounds.{IsOrderly}
use ucrashreport_server.Decoder.Worker.{IsFiled, decode_report-ok, drain-decode_job}
use ucrashreport_server.Payload.{
  decode_data, payload_decode, read_capped, read_take, stream_of, within_cap, zstd_data,
}
use ucrashreport_server.Pool.{
  download, ensure_kernel, ensure_tree, fetch_kernel, file_build_id, is_below, is_stale_build,
  kernel_dest, kernel_url, new_pool, path_exists, read_file, read_response,
}
use ucrashreport_server.Scrub.{mask_ipv4, mask_ipv6, mask_mac, replace_segments, scrub}
use ucrashreport_server.Signature.{
  add_module, compute, ends_trace, frame_of, frame_step, has_marker, is_address, is_counter,
  is_machinery, is_noise_label, normalize_exception, normalize_symbol, note_exception, oops_loop,
  oops_step, parse_oops, push_frame, signature_input, split_module, starts_trace, strip_frame_marks,
  strip_printk_prefix, token_step, token_text, trace_line, trace_loop,
}
use ucrashreport_server.Store.{decoded}
use ucrashreport_server.Symbolizer.{have_symbols, matching_binary, new_symbolizer}
use ucrashreport_server.Text.{Text, codes, get_entry, replace, text_eq, text_runs}
use ucrashreport_server.Text.Utf8.{from_utf8_lossy}
use ucrashreport_server.Types.{encoding_from_str, plain}

unfoldable report_runs : Unit {0}
unfolding decode_job decode_report decode_text find_symbols annotated_text oops_signature
    text_signature new_group finish_report_row store_group store_report_text upsert_group
    upsert_group_row encoding_from_str payload_decode decode_data zstd_data read_capped within_cap
    read_take stream_of from_utf8_lossy scrub replace_segments mask_mac mask_ipv4 mask_ipv6
    new_symbolizer have_symbols matching_binary ensure_kernel ensure_tree kernel_dest kernel_url
    is_stale_build file_build_id fetch_kernel download read_response new_pool path_exists read_file
    is_below path_join symbols_dir replace compute trace_loop frame_step push_frame add_module
    signature_input normalize_exception normalize_symbol parse_oops oops_loop oops_step trace_line
    note_exception has_marker starts_trace ends_trace frame_of strip_frame_marks split_module
    strip_printk_prefix token_step is_machinery is_address token_text is_noise_label is_counter
    text_runs
report_runs = tt

decodes : decode_report plain_libs toy_config no_faults (codes "r") uploaded_state ≡ (
  ok (codes "g"),
  record uploaded_state {
    db = record uploaded_state.db {
      reports =
          record new_report {
            state = decoded;
            group_id = some (codes "g");
            raw_deleted_at = some 11;
          }
          ∷ [];
      groups = new_row ∷ [];
    };
    raw_files = [];
    decoded_files = (codes "r", oops_text) ∷ [];
  },
)
unfolding report_runs
decodes = refl

abbrev job_moment : Text → Shared → Moment
job_moment report_id s = no_faults

abbrev shown : DecodeError → Text
shown e = codes "error"

report-IsOrderly : IsOrderly uploaded_state.db.jobs
unfolding WithinAttempts text_runs
report-IsOrderly = ((refl, tt), ((omega arith, λ _. omega arith), tt))

three_left : attempts_left uploaded_state.db.jobs ≤ 3
unfolding left
three_left = omega arith

drain-decode_job_example :
    IsDrained (drain (decode_job plain_libs toy_config shown job_moment) 3 uploaded_state).db.jobs
drain-decode_job_example =
    drain-decode_job plain_libs toy_config shown job_moment 3 uploaded_state report-IsOrderly
      three_left

drain-kept_example :
    (get_entry
        (codes "r")
        (drain (decode_job plain_libs toy_config shown job_moment) 3 uploaded_state).raw_files
      ≡ some oops_text)
    ⊎ IsRead plain_libs toy_config
        (codes "r")
        oops_text
        (drain (decode_job plain_libs toy_config shown job_moment) 3 uploaded_state)
unfolding text_eq
drain-kept_example =
    drain-kept plain_libs toy_config (codes "r") oops_text shown job_moment 3 uploaded_state refl

decode_report-Outcome_example :
    Outcome
      (IsDecoded plain_libs toy_config no_faults (codes "r") uploaded_state)
      uploaded_state
      (decode_report plain_libs toy_config no_faults (codes "r") uploaded_state)
decode_report-Outcome_example =
    decode_report-Outcome plain_libs toy_config no_faults (codes "r") uploaded_state

upsert_group-group_of_example :
    ((upsert_group new_row []).0 ≡ (seen_group (group_of new_row.signature []) new_row).id)
    × ((sig : Text)
        → group_of sig (upsert_group new_row []).1 ≡ (
            if text_eq new_row.signature sig
            then some (seen_group (group_of new_row.signature []) new_row)
            else group_of sig []))
upsert_group-group_of_example = upsert_group-group_of new_row []

reads :
    (encoding_from_str (codes "none") ≡ ok plain)
    × (payload_decode plain_libs.crates oops_text plain ≡ ok oops_text)
unfolding report_runs
reads = (refl, refl)

decode_report-ok_example :
    (group : Text) × (s' : Shared) × (decode_report plain_libs toy_config no_faults
        (codes "r")
        uploaded_state
      ≡ (ok group, s'))
    × IsFiled plain_libs toy_config no_faults
        (codes "r")
        new_report
        (stored_text plain_libs toy_config no_faults new_report oops_text uploaded_state)
        group
        s'
unfolding text_eq
decode_report-ok_example =
    decode_report-ok plain_libs toy_config no_faults (codes "r") uploaded_state new_report oops_text
      plain oops_text refl refl reads.0 reads.1 refl
