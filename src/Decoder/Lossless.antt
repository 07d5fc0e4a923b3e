-- ===== src/Decoder/Lossless.antt =====
-- What the worker of crates/ucrs-decoder/src/main.rs and decode.rs keeps of the raw payloads.
use ucrashreport_server.Base.{
  Bool-cases, List, Option, Option-cases, false, inl, inr, none, refl, some, some-eq, subst, suc,
  sym, true, zero, ℕ, ◌∙◌, ◌≡◌, ◌⊎◌,
}
use ucrashreport_server.Base.Results.{Result-cases, ok}
use ucrashreport_server.Config.{Config}
use ucrashreport_server.Decoder.Outcome.{group_for, grouped, stored_text, with_symbols}
use ucrashreport_server.Decoder.Queue.{Job, Shared, claim_job, drain, process_job, work, work_round}
use ucrashreport_server.Decoder.Report.{
  DecodeError, DecodeLibs, Moment, decode_job, decode_report, decode_text, find_symbols,
  finish_report_row, set_decoded, store_group, store_report_text,
}
use ucrashreport_server.Payload.{payload_decode}
use ucrashreport_server.Store.{Db, DecodeJob, Report, select_row}
use ucrashreport_server.Text.{
  Text, get_entry, get_entry-remove, get_entry-remove_other, get_entry-set, remove_entry, set_entry,
  text_eq, text_eq_iff,
}
use ucrashreport_server.Types.{PayloadEncoding, encoding_from_str}
use ucrashreport_server.Usign.{Bytes}

set_entry-other :
    {A : Type 0} (k j : Text) (a : A) (m : List (Text × A))
    → text_eq k j ≡ false
    → get_entry j (set_entry k a m) ≡ get_entry j m
set_entry-other k j a m e = rw (e, get_entry-remove_other j k m e) refl

module _ (libs : DecodeLibs) (cfg : Config) (id : Text) (raw : Bytes) where
  -- A text that decoding the bytes gives, annotated and scrubbed as at some moment.
  pub record IsTextOf (t : Text) : Type 0 where
    pub encoding : PayloadEncoding
    pub text : Text
    pub readable : payload_decode libs.crates raw encoding ≡ ok text
    pub moment : Moment
    pub report : Report
    pub at_state : Shared
    pub is_text : t ≡ stored_text libs cfg moment report text at_state

  -- The payload of the report is gone, and a text that its bytes give is stored.
  abbrev pub IsRead : Shared → Type 0
  IsRead s =
      (get_entry id s.raw_files ≡ none)
      × ((t : Text) × (get_entry id s.decoded_files ≡ some t) × IsTextOf t)

  abbrev pub HasCopy : Shared → Type 0
  HasCopy s = (get_entry id s.raw_files ≡ some raw) ⊎ IsRead s

  module _ (m : Moment) (report_id : Text) where
    -- If the job's report is the one of the payload, the payload is there, and the text is its own.
    abbrev IsOwn : Text → Shared → Type 0
    IsOwn t s = text_eq report_id id ≡ true → (get_entry id s.raw_files ≡ some raw) × IsTextOf t

    -- The raw payload of a report with a text of its own may go.
    remove-HasCopy :
        (t : Text) (db : Db) (s : Shared)
        → get_entry report_id s.decoded_files ≡ some t
        → IsOwn t s
        → HasCopy s
        → HasCopy (record s { db = db; raw_files = remove_entry report_id s.raw_files })
    remove-HasCopy t db s has own copy = elim (Bool-cases (text_eq report_id id)) [
      | inl e ↦
          let same = (text_eq_iff report_id id).0 e in
          inr (
            subst (λ k. get_entry k (remove_entry report_id s.raw_files) ≡ none) same
                (get_entry-remove report_id s.raw_files),
            (t, subst (λ k. get_entry k s.decoded_files ≡ some t) same has, (own e).1),
          )
      | inr e ↦ elim copy [
        | inl file ↦ inl (get_entry-remove_other id report_id s.raw_files e ∙ file)
        | inr (gone, read) ↦ inr (get_entry-remove_other id report_id s.raw_files e ∙ gone, read)
      ]
    ]

    finish_report_row-HasCopy :
        (t group : Text) (s : Shared)
        → get_entry report_id s.decoded_files ≡ some t
        → IsOwn t s
        → HasCopy s
        → HasCopy (finish_report_row libs cfg m report_id group s).1
    unfolding finish_report_row
    finish_report_row-HasCopy t group s has own copy = elim (Bool-cases m.update_fails) [
      | inl u ↦ rw u copy
      | inr u ↦ rw u (elim (Bool-cases m.remove_fails) [
        | inl d ↦ rw d copy
        | inr d ↦ rw d (remove-HasCopy t (set_decoded report_id group m.ts s.db) s has own copy)
      ])
    ]

    -- With one more decoded text.
    written-HasCopy :
        (t : Text) (s : Shared)
        → IsOwn t s
        → HasCopy s
        → HasCopy (record s { decoded_files = set_entry report_id t s.decoded_files })
    written-HasCopy t s own (inl file) = inl file
    written-HasCopy t s own (inr (gone, (u, stored, read))) =
        elim (Bool-cases (text_eq report_id id)) [
          | inl e ↦ cc (gone, (own e).0)
          | inr e ↦ inr (gone, (u, set_entry-other report_id id t s.decoded_files e ∙ stored, read))
        ]

    store_report_text-HasCopy :
        (report : Report) (t : Text) (s : Shared)
        → IsOwn t s
        → HasCopy s
        → HasCopy (store_report_text libs cfg m report report_id t s).1
    unfolding store_report_text store_group
    store_report_text-HasCopy report t s own copy = elim (Bool-cases m.write_fails) [
      | inl w ↦ rw w copy
      | inr w ↦ rw w (elim (Bool-cases m.upsert_fails) [
        | inl u ↦ rw u (written-HasCopy t s own copy)
        | inr u ↦ rw u (
            finish_report_row-HasCopy t (group_for libs cfg m report t s)
              (grouped libs cfg m report report_id t s) (get_entry-set report_id t s.decoded_files)
              own (written-HasCopy t s own copy))
      ])
    ]

    -- The payload that was read is the one of the report.
    read-IsOwn :
        (report : Report) (file : Bytes) (encoding : PayloadEncoding) (text : Text) (s : Shared)
        → get_entry report_id s.raw_files ≡ some file
        → payload_decode libs.crates file encoding ≡ ok text
        → HasCopy s
        → IsOwn (stored_text libs cfg m report text s) s
    read-IsOwn report file encoding text s has readable copy = λ e.
        let there : get_entry id s.raw_files ≡ some file =
          subst (λ k. get_entry k s.raw_files ≡ some file) ((text_eq_iff report_id id).0 e) has in
        elim copy [
          | inl is_raw ↦ (
            is_raw,
            record {
              encoding = encoding;
              text = text;
              readable =
                  subst (λ b. payload_decode libs.crates b encoding ≡ ok text)
                    (some-eq file raw (sym there ∙ is_raw)) readable;
              moment = m;
              report = report;
              at_state = s;
              is_text = refl;
            },
          )
          | inr (gone, _) ↦ cc (gone, there)
        ]

    decode_report-HasCopy :
        (s : Shared) → HasCopy s → HasCopy (decode_report libs cfg m report_id s).1
    unfolding decode_report decode_text find_symbols
    decode_report-HasCopy s copy =
        elim (Option-cases (select_row (λ r. text_eq r.id report_id) s.db.reports)) [
          | inl e ↦ rw e copy
          | inr (report, found) ↦ rw found (elim (Option-cases (get_entry report_id s.raw_files)) [
            | inl e ↦ rw e copy
            | inr (file, has_file) ↦
                rw has_file (elim (Result-cases (encoding_from_str report.payload_encoding)) [
                  | inr (x, e) ↦ rw e copy
                  | inl (encoding, known) ↦
                      rw known (elim (Result-cases (payload_decode libs.crates file encoding)) [
                        | inr (x, e) ↦ rw e copy
                        | inl (text, readable) ↦ rw readable (
                            store_report_text-HasCopy report (stored_text libs cfg m report text s)
                              (with_symbols libs cfg m report s)
                              (read-IsOwn report file encoding text s has_file readable copy) copy)
                      ])
                ])
          ])
        ]

  module _ (show : DecodeError → Text) (moment : Text → Shared → Moment) where
    work-HasCopy :
        (c : Option Job × List DecodeJob) (s : Shared)
        → HasCopy s
        → HasCopy (work (decode_job libs cfg show moment) c s)
    unfolding work process_job decode_job
    work-HasCopy (none, jobs) s copy = copy
    work-HasCopy (some job, jobs) s copy =
        let v : Shared = record s { db = record s.db { jobs = jobs } } in
        decode_report-HasCopy (moment job.report_id v) job.report_id v copy

    drain-HasCopy :
        (fuel : ℕ) (s : Shared)
        → HasCopy s
        → HasCopy (drain (decode_job libs cfg show moment) fuel s)
    unfolding drain work_round
    drain-HasCopy zero s copy = copy
    drain-HasCopy (suc fuel) s copy =
        drain-HasCopy fuel _ (work-HasCopy (claim_job s.db.jobs) s copy)

    -- The worker loses no report: however many rounds it makes, and whatever of the crates, the
    -- symbols and the writes fails at each of them, a raw payload that was there before is still
    -- there with the same bytes, or it is gone and the text that is stored for its report is one
    -- that these bytes decode to, annotated and scrubbed.
    pub drain-kept :
        (fuel : ℕ) (s : Shared)
        → get_entry id s.raw_files ≡ some raw
        → (get_entry id (drain (decode_job libs cfg show moment) fuel s).raw_files ≡ some raw)
          ⊎ IsRead (drain (decode_job libs cfg show moment) fuel s)
    drain-kept fuel s file = drain-HasCopy fuel s (inl file)
