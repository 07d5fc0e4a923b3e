-- ===== src/Decoder/Rounds.antt =====
-- The rounds of the worker, crates/ucrs-decoder/src/main.rs and decode.rs.
use ucrashreport_server.Base.{
  All, All-Member, List, Option, ap, none, refl, some, subst, suc, sym, ◌∙◌, ◌≡◌,
}
use ucrashreport_server.Base.Results.{Result}
use ucrashreport_server.Decoder.Attempts.{
  HasKeys, HasKeys-eq, HasKeys-update_job, WithinAttempts, few_attempts, round-WithinAttempts,
  settle_job-jobs, settled_row, settled_row-id,
}
use ucrashreport_server.Decoder.Claims.{IsClaim, claim_job-IsClaim}
use ucrashreport_server.Decoder.Queue.{
  Job, Shared, claim_job, claimed, process_job, update_job, work, work_round,
}
use ucrashreport_server.Store.{DecodeJob}
use ucrashreport_server.Text.{Text, within}

-- The jobs are left alone, as `decode_report` leaves them.
abbrev pub KeepsJobs : (Text → Shared → Result Text Text × Shared) → Type 0
KeepsJobs decode = (id : Text) (v : Shared) → (decode id v).1.db.jobs ≡ v.db.jobs

-- The queue is in order: its rows have keys, and no job is above its attempts.
abbrev pub IsOrderly : List DecodeJob → Type 0
IsOrderly jobs = HasKeys jobs × All WithinAttempts jobs

module _ (decode : Text → Shared → Result Text Text × Shared) (keeps : KeepsJobs decode) where
  -- The jobs after a round with this job.
  pub process_job-jobs :
      (j : DecodeJob) (jobs : List DecodeJob) (v : Shared)
      → v.db.jobs ≡ update_job j.id claimed jobs
      → (process_job decode
          (record { id = j.id; report_id = j.report_id; attempts = suc j.attempts })
          v).db.jobs
        ≡ update_job j.id
            (settled_row (suc j.attempts) (decode j.report_id v).0)
            (update_job j.id claimed jobs)
  unfolding process_job
  process_job-jobs j jobs v e =
      settle_job-jobs (record { id = j.id; report_id = j.report_id; attempts = suc j.attempts })
        (decode j.report_id v).0 (decode j.report_id v).1.db
      ∙ ap (update_job j.id (settled_row (suc j.attempts) (decode j.report_id v).0))
          (keeps j.report_id v ∙ e)

  work-IsOrderly :
      (s : Shared) (c : Option Job × List DecodeJob)
      → IsClaim s.db.jobs c
      → IsOrderly s.db.jobs
      → IsOrderly (work decode c s).db.jobs
  unfolding work IsClaim
  work-IsOrderly s (none, jobs') claim order = order
  work-IsOrderly s (some job, jobs') (j, first, is, rows) (keys, within) =
      let v : Shared = record s { db = record s.db { jobs = jobs' } } in
      let r : Result Text Text = (decode j.report_id v).0 in
      subst (λ k. IsOrderly (process_job decode k v).db.jobs) (sym is)
        (subst IsOrderly (sym (process_job-jobs j s.db.jobs v rows)) (
          HasKeys-update_job j.id (settled_row (suc j.attempts) r)
              (settled_row-id (suc j.attempts) r) (update_job j.id claimed s.db.jobs)
              (HasKeys-update_job j.id claimed (λ x. refl) s.db.jobs keys),
          round-WithinAttempts j r s.db.jobs
              (few_attempts j (All-Member WithinAttempts s.db.jobs j within first.there)
                first.waits)
              (λ x m e. HasKeys-eq s.db.jobs x j keys m first.there e) within,
        ))

-- After a round of the worker the queue is in order if it was before: the ids are distinct, no
-- job was tried more than three times, and a job that waits was tried fewer times than that.
-- Decoding may give anything, but leaves the jobs alone.
pub work_round-IsOrderly :
    (decode : Text → Shared → Result Text Text × Shared) (s : Shared)
    → KeepsJobs decode
    → IsOrderly s.db.jobs
    → IsOrderly (work_round decode s).db.jobs
unfolding work_round
work_round-IsOrderly decode s keeps order =
    work-IsOrderly decode keeps s (claim_job s.db.jobs) (claim_job-IsClaim s.db.jobs) order
