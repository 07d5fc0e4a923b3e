-- ===== src/Decoder/Outcome.antt =====
-- What `decode_report` of crates/ucrs-decoder/src/decode.rs does, on success and on each error.
use ucrashreport_server.Base.{
  Bool-cases, Option-cases, ap, inl, inr, refl, some, sym, ◌∙◌, ◌≡◌, ◌≢◌,
}
use ucrashreport_server.Base.Results.{Result, Result-cases, err, ok}
use ucrashreport_server.Config.{Config}
use ucrashreport_server.Decoder.Queue.{Shared}
use ucrashreport_server.Decoder.Report.{
  DecodeError, DecodeLibs, Moment, annotated_text, decode_report, decode_text, deleting_raw,
  find_symbols, finish_report_row, found_dir, new_group, set_decoded, store_group,
  store_report_text, text_signature, upsert_group,
}
use ucrashreport_server.Payload.{payload_decode}
use ucrashreport_server.Pool.{Files, PoolError, ensure_kernel, new_pool}
use ucrashreport_server.Scrub.{scrub}
use ucrashreport_server.Store.{Report, select_row}
use ucrashreport_server.Text.{Text, get_entry, remove_entry, set_entry, text_eq}
use ucrashreport_server.Types.{PayloadEncoding, encoding_from_str}
use ucrashreport_server.Usign.{Bytes}

-- After an error the raw payload and the jobs are as before, and so are the reports unless only the
-- raw payload could not be removed.
abbrev pub IsFailed : DecodeError → Shared → Shared → Type 0
IsFailed e s s' =
    (s'.raw_files ≡ s.raw_files)
    × (s'.db.jobs ≡ s.db.jobs)
    × (e ≢ deleting_raw → s'.db.reports ≡ s.db.reports)

abbrev pub Outcome : (Text → Shared → Type 0) → Shared → Result DecodeError Text × Shared → Type 0
Outcome P s (ok group, s') = P group s'
Outcome P s (err e, s') = IsFailed e s s'

Outcome-map :
    (P Q : Text → Shared → Type 0) (s1 s : Shared) (r : Result DecodeError Text × Shared)
    → s1.raw_files ≡ s.raw_files
    → s1.db.jobs ≡ s.db.jobs
    → s1.db.reports ≡ s.db.reports
    → ((group : Text) (s' : Shared) → P group s' → Q group s')
    → Outcome P s1 r
    → Outcome Q s r
Outcome-map P Q s1 s (ok group, s') raw jobs reports f o = f group s' o
Outcome-map P Q s1 s (err e, s') raw jobs reports f (raw', jobs', reports') =
    (raw' ∙ raw, jobs' ∙ jobs, λ n. reports' n ∙ reports)

-- The state when the report is in the group.
abbrev pub finished : Moment → Text → Text → Shared → Shared
finished m report_id group s = record s {
  db = set_decoded report_id group m.ts s.db;
  raw_files = remove_entry report_id s.raw_files;
}

finish_report_row-Outcome :
    (libs : DecodeLibs) (cfg : Config) (m : Moment) (report_id group : Text) (s : Shared)
    → Outcome
        (λ g s'. (g ≡ group) × (s' ≡ finished m report_id group s))
        s
        (finish_report_row libs cfg m report_id group s)
unfolding finish_report_row
finish_report_row-Outcome libs cfg m report_id group s = elim (Bool-cases m.update_fails) [
  | inl u ↦ rw u (refl, refl, λ _. refl)
  | inr u ↦ rw u (elim (Bool-cases m.remove_fails) [
    | inl d ↦ rw d (refl, refl, λ n. elim (n refl) [ ])
    | inr d ↦ rw d (refl, refl)
  ])
]

module _ (libs : DecodeLibs) (cfg : Config) (m : Moment) where
  -- The state with the decoded text and the report's group.
  abbrev pub grouped : Report → Text → Text → Shared → Shared
  grouped report report_id text s = record s {
    decoded_files = set_entry report_id text s.decoded_files;
    db = record s.db {
      groups =
          (upsert_group (new_group libs cfg m report (text_signature libs cfg report.kind text))
            s.db.groups).1;
    };
  }

  abbrev pub group_for : Report → Text → Shared → Text
  group_for report text s =
      (upsert_group (new_group libs cfg m report (text_signature libs cfg report.kind text))
        s.db.groups).0

  -- The report's text is stored, it is in the group of its signature, and its raw payload is gone.
  abbrev pub IsStored : Report → Text → Text → Shared → Text → Shared → Type 0
  IsStored report report_id text s group s' =
      (group ≡ group_for report text s)
      × (s' ≡ finished m report_id group (grouped report report_id text s))

  store_report_text-Outcome :
      (report : Report) (report_id text : Text) (s : Shared)
      → Outcome
          (IsStored report report_id text s)
          s
          (store_report_text libs cfg m report report_id text s)
  unfolding store_report_text store_group
  store_report_text-Outcome report report_id text s = elim (Bool-cases m.write_fails) [
    | inl w ↦ rw w (refl, refl, λ _. refl)
    | inr w ↦ rw w (elim (Bool-cases m.upsert_fails) [
      | inl u ↦ rw u (refl, refl, λ _. refl)
      | inr u ↦ rw u (
          Outcome-map
            (λ g s'.
              (g ≡ group_for report text s)
              × (s'
                  ≡ finished m report_id (group_for report text s)
                      (grouped report report_id text s)))
            (IsStored report report_id text s) (grouped report report_id text s) s
            (finish_report_row libs cfg m report_id (group_for report text s)
              (grouped report report_id text s))
            refl refl refl
            (λ g s' (is_group, is_state). (
              is_group,
              is_state
                  ∙ ap (λ k. finished m report_id k (grouped report report_id text s))
                      (sym is_group),
            ))
            (finish_report_row-Outcome libs cfg m report_id (group_for report text s)
              (grouped report report_id text s)))
    ])
  ]

  -- The symbols of the report's kernel, and the pool's files once they were looked for.
  abbrev pub symbols_for : Report → Shared → Result PoolError Text × Files
  symbols_for report s =
      ensure_kernel libs.pool_libs (new_pool cfg) m.stamp_time report.version report.target
        report.kernel_buildid s.pool_files

  -- The text that is stored for a payload's text: annotated where the symbols are those of the
  -- reporting kernel, then scrubbed.
  abbrev pub stored_text : Report → Text → Shared → Text
  stored_text report text s =
      let (r, files') = symbols_for report s in
      scrub libs.regex (annotated_text libs cfg (found_dir r) report.kernel_buildid text files')

  abbrev pub with_symbols : Report → Shared → Shared
  with_symbols report s = record s { pool_files = (symbols_for report s).1 }

  -- The report was there with a payload that can be read, and its scrubbed text is stored.
  pub record IsDecoded (report_id : Text) (s : Shared) (group : Text) (s' : Shared) : Type 0 where
    pub report : Report
    pub found : select_row (λ r. text_eq r.id report_id) s.db.reports ≡ some report
    pub raw : Bytes
    pub has_raw : get_entry report_id s.raw_files ≡ some raw
    pub encoding : PayloadEncoding
    pub known : encoding_from_str report.payload_encoding ≡ ok encoding
    pub text : Text
    pub readable : payload_decode libs.crates raw encoding ≡ ok text
    pub is_stored :
        IsStored report report_id (stored_text report text s) (with_symbols report s) group s'

  decode_text-Outcome :
      (report : Report) (report_id text : Text) (s : Shared)
      → Outcome
          (IsStored report report_id (stored_text report text s) (with_symbols report s))
          s
          (decode_text libs cfg m report report_id text s)
  unfolding decode_text find_symbols
  decode_text-Outcome report report_id text s =
      let P = IsStored report report_id (stored_text report text s) (with_symbols report s) in
      Outcome-map P P (with_symbols report s) s _ refl refl refl (λ g s' p. p)
        (store_report_text-Outcome report report_id (stored_text report text s)
          (with_symbols report s))

  -- Decoding a report gives a group only where the report is there with a raw payload that its
  -- encoding reads. Then the scrubbed text is stored, the group is the one of that text's
  -- signature, the report is marked as decoded in it, and only then the raw payload is removed. On
  -- every error the raw payload and the jobs stay, and so do the reports unless the raw payload
  -- could not be removed.
  pub decode_report-Outcome :
      (report_id : Text) (s : Shared)
      → Outcome (IsDecoded report_id s) s (decode_report libs cfg m report_id s)
  unfolding decode_report
  decode_report-Outcome report_id s =
      elim (Option-cases (select_row (λ r. text_eq r.id report_id) s.db.reports)) [
        | inl e ↦ rw e (refl, refl, λ _. refl)
        | inr (report, found) ↦ rw found (elim (Option-cases (get_entry report_id s.raw_files)) [
          | inl e ↦ rw e (refl, refl, λ _. refl)
          | inr (raw, has_raw) ↦
              rw has_raw (elim (Result-cases (encoding_from_str report.payload_encoding)) [
                | inr (x, e) ↦ rw e (refl, refl, λ _. refl)
                | inl (encoding, known) ↦
                    rw known (elim (Result-cases (payload_decode libs.crates raw encoding)) [
                      | inr (x, e) ↦ rw e (refl, refl, λ _. refl)
                      | inl (text, readable) ↦ rw readable (
                          Outcome-map
                            (IsStored report report_id (stored_text report text s)
                              (with_symbols report s))
                            (IsDecoded report_id s) s s
                            (decode_text libs cfg m report report_id text s) refl refl refl
                            (λ g s' p. record {
                              report = report;
                              found = found;
                              raw = raw;
                              has_raw = has_raw;
                              encoding = encoding;
                              known = known;
                              text = text;
                              readable = readable;
                              is_stored = p;
                            })
                            (decode_text-Outcome report report_id text s))
                    ])
              ])
        ])
      ]
