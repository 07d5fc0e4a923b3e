-- ===== src/Decoder/Worker.antt =====
-- The worker of crates/ucrs-decoder/src/main.rs with `decode_report` as what it does for a job.
use ucrashreport_server.Base.{ap, arith, false, none, refl, some, sym, ℕ, ◌||◌, ◌∙◌, ◌≡◌, ◌≤◌}
use ucrashreport_server.Base.Results.{Result, err, ok}
use ucrashreport_server.Config.{Config}
use ucrashreport_server.Decoder.Draining.{IsDrained, attempts_left, drain-IsDrained}
use ucrashreport_server.Decoder.Groups.{group_of, seen_group, upsert_group-group_of}
use ucrashreport_server.Decoder.Outcome.{
  IsDecoded, Outcome, decode_report-Outcome, finished, group_for, grouped, stored_text,
  with_symbols,
}
use ucrashreport_server.Decoder.Queue.{Shared, drain}
use ucrashreport_server.Decoder.Report.{
  DecodeError, DecodeLibs, Moment, decode_job, decode_report, decode_text, find_symbols,
  finish_report_row, new_group, store_group, store_report_text, text_signature,
}
use ucrashreport_server.Decoder.ReportSamples.{no_faults}
use ucrashreport_server.Decoder.Rounds.{IsOrderly, KeepsJobs}
use ucrashreport_server.Payload.{payload_decode}
use ucrashreport_server.Store.{CrashGroup, Report, decoded, select_row}
use ucrashreport_server.Store.Lookup.{select_row-eq-some, select_row-update}
use ucrashreport_server.Text.{
  Text, get_entry, get_entry-remove, get_entry-set, text_eq, text_eq_refl,
}
use ucrashreport_server.Types.{PayloadEncoding, encoding_from_str}
use ucrashreport_server.Usign.{Bytes}

module _ (libs : DecodeLibs) (cfg : Config) where
  Outcome-jobs :
      (m : Moment) (report_id : Text) (s : Shared) (r : Result DecodeError Text × Shared)
      → Outcome (IsDecoded libs cfg m report_id s) s r
      → r.1.db.jobs ≡ s.db.jobs
  Outcome-jobs m report_id s (ok group, s') is_decoded = ap (λ k. k.db.jobs) is_decoded.is_stored.1
  Outcome-jobs m report_id s (err e, s') (raw, jobs, reports) = jobs

  pub decode_job-KeepsJobs :
      (show : DecodeError → Text) (moment : Text → Shared → Moment)
      → KeepsJobs (decode_job libs cfg show moment)
  unfolding decode_job
  decode_job-KeepsJobs show moment report_id s =
      Outcome-jobs (moment report_id s) report_id s _
        (decode_report-Outcome libs cfg (moment report_id s) report_id s)

  -- The worker with `decode_report` comes to an end: from a queue in order, as many rounds as its
  -- jobs have attempts left leave no job that waits, whatever the crates, the symbols and the writes
  -- do at each of the jobs.
  pub drain-decode_job :
      (show : DecodeError → Text) (moment : Text → Shared → Moment) (fuel : ℕ) (s : Shared)
      → IsOrderly s.db.jobs
      → attempts_left s.db.jobs ≤ fuel
      → IsDrained (drain (decode_job libs cfg show moment) fuel s).db.jobs
  drain-decode_job show moment fuel s order enough =
      drain-IsDrained (decode_job libs cfg show moment) fuel s (decode_job-KeepsJobs show moment)
        order enough

  -- The report's row when it is in the group.
  abbrev decoded_row : Moment → Text → Report → Report
  decoded_row m group r = record r {
    state = decoded;
    group_id = some group;
    raw_deleted_at = some m.ts;
  }

  -- The state that a decoded report leaves: its text is stored, the group of the text's signature is
  -- there, the report's row is in it, and the raw payload is gone.
  pub record IsFiled (m : Moment) (report_id : Text) (report : Report) (stored group : Text)
      (s' : Shared) : Type 0 where
    pub has_text : get_entry report_id s'.decoded_files ≡ some stored
    pub crash_group : CrashGroup
    pub signed :
        group_of (text_signature libs cfg report.kind stored).signature s'.db.groups
        ≡ some crash_group
    pub is_group : crash_group.id ≡ group
    pub has_row :
        select_row (λ r. text_eq r.id report_id) s'.db.reports ≡ some (decoded_row m group report)
    pub no_raw : get_entry report_id s'.raw_files ≡ none

  finished-IsFiled :
      (m : Moment) (report_id : Text) (report : Report) (stored : Text) (s : Shared)
      → select_row (λ r. text_eq r.id report_id) s.db.reports ≡ some report
      → IsFiled m report_id report stored (group_for libs cfg m report stored s) (
          finished m report_id
            (group_for libs cfg m report stored s)
            (grouped libs cfg m report report_id stored s))
  unfolding new_group
  finished-IsFiled m report_id report stored s found =
      let new : CrashGroup =
        new_group libs cfg m report (text_signature libs cfg report.kind stored) in
      let (id, lookup) = upsert_group-group_of new s.db.groups in
      record {
        has_text = get_entry-set report_id stored s.decoded_files;
        crash_group = seen_group (group_of new.signature s.db.groups) new;
        signed = lookup new.signature ∙ rw (text_eq_refl new.signature) refl;
        is_group = sym id;
        has_row =
            select_row-update (λ r. text_eq r.id report_id) (λ r. text_eq r.id report_id)
              (decoded_row m (group_for libs cfg m report stored s)) s.db.reports (λ r. refl)
            ∙ rw
                (
                  found,
                  (select_row-eq-some (λ r. text_eq r.id report_id) s.db.reports report found).0,
                )
                refl;
        no_raw = get_entry-remove report_id s.raw_files;
      }

  -- A report that is there with a raw payload, which its encoding reads as a text, is decoded if none
  -- of the writes fails, with symbols or without. Afterwards the text, annotated and scrubbed, is
  -- stored, the group of that text's signature is there with the id that is answered, the report's
  -- row is marked as decoded in it, and the raw payload is gone.
  pub decode_report-ok :
      (m : Moment) (report_id : Text) (s : Shared) (report : Report) (raw : Bytes)
      (encoding : PayloadEncoding) (text : Text)
      → select_row (λ r. text_eq r.id report_id) s.db.reports ≡ some report
      → get_entry report_id s.raw_files ≡ some raw
      → encoding_from_str report.payload_encoding ≡ ok encoding
      → payload_decode libs.crates raw encoding ≡ ok text
      → (m.write_fails || (m.upsert_fails || (m.update_fails || m.remove_fails))) ≡ false
      → (group : Text) × (s' : Shared) × (decode_report libs cfg m report_id s ≡ (ok group, s'))
        × IsFiled m report_id report (stored_text libs cfg m report text s) group s'
  unfolding decode_report decode_text find_symbols store_report_text store_group finish_report_row
  decode_report-ok m report_id s report raw encoding text found has known readable no_faults =
      let w : m.write_fails ≡ false = ground arith in
      let u : m.upsert_fails ≡ false = ground arith in
      let p : m.update_fails ≡ false = ground arith in
      let d : m.remove_fails ≡ false = ground arith in
      let v : Shared = with_symbols libs cfg m report s in
      let stored : Text = stored_text libs cfg m report text s in
      let group : Text = group_for libs cfg m report stored v in
      (
        group,
        finished m report_id group (grouped libs cfg m report report_id stored v),
        rw (found, has, known, readable, w, u, p, d) refl,
        finished-IsFiled m report_id report stored v found,
      )
