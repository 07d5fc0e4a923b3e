-- ===== src/Decoder/Queue.antt =====
-- `claim_job`, `process_job` and `gc_failed_raw` of crates/ucrs-decoder/src/decode.rs on the database
-- and the directory of raw payloads. What `decode_report` does for a job is an argument.
use ucrashreport_server.Base.{
  Bool, List, Option, [], false, if◌then◌else◌, is_some, keep, leb, ltb, map, none, not, some, suc,
  true, zero, ℕ, ◌&&◌, ◌*◌, ◌+◌, ◌==◌, ◌∷◌,
}
use ucrashreport_server.Base.Results.{Result, err, ok}
use ucrashreport_server.Pool.{Files}
use ucrashreport_server.Store.{
  Db, DecodeJob, Report, decoded, done, failed, job_failed, pending, received, running, update_rows,
}
use ucrashreport_server.Text.{Text, remove_entry, text_eq}
use ucrashreport_server.Usign.{Bytes}

abbrev pub max_attempts : ℕ
max_attempts = 3

-- The database with the two directories of the configuration, by report id, and the files of the
-- symbol pool.
pub record Shared : Type 0 where
  pub db : Db
  pub raw_files : List (Text × Bytes)
  pub decoded_files : List (Text × Text)
  pub pool_files : Files

pub record Job : Type 0 where
  pub id : Text
  pub report_id : Text
  pub attempts : ℕ

-- Texts in the order of their code points, as the database compares them.
unfoldable pub text_lt : Text → Text → Bool
text_lt [] [] = false
text_lt [] (y ∷ ys) = true
text_lt (x ∷ xs) [] = false
text_lt (x ∷ xs) (y ∷ ys) = let rest = text_lt xs ys in if ltb x y then true else (x == y) && rest

abbrev pub is_pending : DecodeJob → Bool
is_pending j = elim j.state [ pending ↦ true | running ↦ false | done ↦ false | job_failed ↦ false ]

-- `ORDER BY id LIMIT 1`, of a row and the first of the others.
unfoldable pub earlier : DecodeJob → Option DecodeJob → DecodeJob
unfolding text_lt
earlier j none = j
earlier j (some k) = if text_lt k.id j.id then k else j

-- `SELECT id FROM decode_job WHERE state = 'pending' ORDER BY id LIMIT 1`
unfoldable pub first_pending : List DecodeJob → Option DecodeJob
unfolding earlier
first_pending [] = none
first_pending (j ∷ js) =
    let rest = first_pending js in if is_pending j then some (earlier j rest) else rest

abbrev pub update_job : Text → (DecodeJob → DecodeJob) → List DecodeJob → List DecodeJob
update_job id f = update_rows (λ j. text_eq j.id id) f

abbrev pub claimed : DecodeJob → DecodeJob
claimed j = record j { state = running; attempts = suc j.attempts }

-- The update of `claim_job` for the row that its subquery gave.
unfoldable pub claim_row : Option DecodeJob → List DecodeJob → Option Job × List DecodeJob
claim_row none jobs = (none, jobs)
claim_row (some j) jobs = (
  some (record { id = j.id; report_id = j.report_id; attempts = suc j.attempts }),
  update_job j.id claimed jobs,
)

unfoldable pub claim_job : List DecodeJob → Option Job × List DecodeJob
unfolding claim_row first_pending
claim_job jobs = claim_row (first_pending jobs) jobs

-- What `process_job` writes for a result of `decode_report`, the group's id or an error's message.
unfoldable pub settle_job : Job → Result Text Text → Db → Db
settle_job job (ok group) db = record db {
  jobs = update_job job.id (λ j. record j { state = done }) db.jobs;
}
settle_job job (err e) db =
    if leb max_attempts job.attempts
    then record db {
      jobs = update_job job.id (λ j. record j { state = job_failed; last_error = some e }) db.jobs;
      reports =
          update_rows (λ r. text_eq r.id job.report_id) (λ r. record r { state = failed })
            db.reports;
    }
    else record db {
      jobs = update_job job.id (λ j. record j { state = pending; last_error = some e }) db.jobs;
    }

-- `process_job`
unfoldable pub process_job : (Text → Shared → Result Text Text × Shared) → Job → Shared → Shared
unfolding settle_job
process_job decode job s =
    let (r, s') = decode job.report_id s in record s' { db = settle_job job r s'.db }

-- One round of the worker: a job that was claimed is processed.
unfoldable pub work :
    (Text → Shared → Result Text Text × Shared) → Option Job × List DecodeJob → Shared → Shared
unfolding process_job
work decode (none, jobs) s = s
work decode (some job, jobs) s =
    process_job decode job (record s { db = record s.db { jobs = jobs } })

unfoldable pub work_round : (Text → Shared → Result Text Text × Shared) → Shared → Shared
unfolding work claim_job
work_round decode s = work decode (claim_job s.db.jobs) s

-- `WHERE state = 'failed' AND raw_deleted_at IS NULL AND received_at < ?`, where the cutoff
-- is `now() - raw_failed_retention_days * 86400`.
unfoldable pub is_stale : ℕ → ℕ → Report → Bool
is_stale now days r =
    elim r.state [ failed ↦ true | received ↦ false | decoded ↦ false ]
    && (not (is_some r.raw_deleted_at) && ltb (r.received_at + days * 86400) now)

-- The loop of `gc_failed_raw` over the ids of the rows, with the time of each row's update.
unfoldable pub drop_raw : (Text → ℕ) → List Text → Shared → Shared
drop_raw later [] s = s
drop_raw later (id ∷ ids) s = drop_raw later ids (record s {
  raw_files = remove_entry id s.raw_files;
  db = record s.db {
    reports =
        update_rows (λ r. text_eq r.id id) (λ r. record r { raw_deleted_at = some (later id) })
          s.db.reports;
  };
})

unfoldable pub gc_failed_raw : ℕ → (Text → ℕ) → ℕ → Shared → Shared
unfolding is_stale drop_raw
gc_failed_raw now later days s =
    drop_raw later (map (λ r. r.id) (keep (is_stale now days) s.db.reports)) s

-- The loop of crates/ucrs-decoder/src/main.rs with `--once`, until a round finds no job; the fuel
-- bounds its rounds.
unfoldable pub drain : (Text → Shared → Result Text Text × Shared) → ℕ → Shared → Shared
unfolding work_round
drain decode zero s = s
drain decode (suc fuel) s = drain decode fuel (work_round decode s)
