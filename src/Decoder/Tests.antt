-- ===== src/Decoder/Tests.antt =====
-- Runs of the queue of crates/ucrs-decoder/src/decode.rs, with a witness for each theorem.
use ucrashreport_server.Base.{
  All, List, [], arith, false, inl, inr, none, refl, some, ◌∷◌, ◌≡◌, ◌≤◌,
}
use ucrashreport_server.Base.Results.{Result, err}
use ucrashreport_server.Decoder.Attempts.{WithinAttempts}
use ucrashreport_server.Decoder.Claims.{claim_job-claim_job}
use ucrashreport_server.Decoder.Draining.{attempts_left, left}
use ucrashreport_server.Decoder.Queue.{
  Job, Shared, claim_job, claim_row, drain, drop_raw, earlier, first_pending, gc_failed_raw,
  is_stale, process_job, settle_job, text_lt, work, work_round,
}
use ucrashreport_server.Decoder.Retention.{Keeps, gc_failed_raw-kept}
use ucrashreport_server.Decoder.Rounds.{IsOrderly, KeepsJobs, work_round-IsOrderly}
use ucrashreport_server.Pool.{rooted}
use ucrashreport_server.Store.{
  DecodeJob, Report, decoded, failed, job_failed, pending, private_report, running,
}
use ucrashreport_server.Text.{Text, codes, get_entry, text_eq, text_runs}
use ucrashreport_server.Types.{pos}

unfoldable queue_runs : Unit {0}
unfolding drain work_round work process_job settle_job claim_job claim_row first_pending earlier
    text_lt text_runs gc_failed_raw is_stale drop_raw
queue_runs = tt

abbrev waiting : DecodeJob
waiting = record {
  id = codes "b";
  report_id = codes "r";
  state = pending;
  attempts = 1;
  last_error = none;
}

abbrev other : DecodeJob
other = record waiting { id = codes "a"; state = job_failed; attempts = 3 }

abbrev queue : List DecodeJob
queue = waiting ∷ other ∷ []

abbrev queue_state : Shared
queue_state = record {
  db = record {
    devices = [];
    reports = [];
    jobs = queue;
    groups = [];
    users = [];
    device_tokens = [];
    dev_sessions = [];
  };
  raw_files = [];
  decoded_files = [];
  pool_files = rooted [];
}

-- Decoding that always fails.
abbrev failing : Text → Shared → Result Text Text × Shared
failing id s = (err (codes "no"), s)

failing-KeepsJobs : KeepsJobs failing
failing-KeepsJobs id v = refl

claims : claim_job queue ≡ (
  some (record { id = codes "b"; report_id = codes "r"; attempts = 2 }),
  record waiting { state = running; attempts = 2 } ∷ other ∷ [],
)
unfolding queue_runs
claims = refl

gives_up :
    (drain failing 2 queue_state).db.jobs
    ≡ record waiting { state = job_failed; attempts = 3; last_error = some (codes "no") }
      ∷ other
      ∷ []
unfolding queue_runs
gives_up = refl

queue-IsOrderly : IsOrderly queue
unfolding WithinAttempts text_runs
queue-IsOrderly =
    ((refl, (refl, tt)), ((omega arith, λ _. omega arith), ((omega arith, λ e. cc), tt)))

abbrev two_waiting : List DecodeJob
two_waiting = waiting ∷ record waiting { id = codes "c" } ∷ []

abbrev job_of : Text → Job
job_of id = record { id = id; report_id = codes "r"; attempts = 2 }

abbrev now_running : DecodeJob
now_running = record waiting { state = running; attempts = 2 }

first_claim :
    claim_job two_waiting
    ≡ (some (job_of (codes "b")), now_running ∷ record waiting { id = codes "c" } ∷ [])
unfolding queue_runs
first_claim = refl

second_claim :
    claim_job (now_running ∷ record waiting { id = codes "c" } ∷ [])
    ≡ (some (job_of (codes "c")), now_running ∷ record now_running { id = codes "c" } ∷ [])
unfolding queue_runs
second_claim = refl

claim_job-claim_job_example : text_eq (codes "c") (codes "b") ≡ false
claim_job-claim_job_example =
    claim_job-claim_job two_waiting (now_running ∷ record waiting { id = codes "c" } ∷ [])
      (now_running ∷ record now_running { id = codes "c" } ∷ []) (job_of (codes "b"))
      (job_of (codes "c")) first_claim second_claim

work_round-IsOrderly_example : IsOrderly (work_round failing queue_state).db.jobs
work_round-IsOrderly_example =
    work_round-IsOrderly failing queue_state failing-KeepsJobs queue-IsOrderly

two_left : attempts_left queue ≤ 2
unfolding left
two_left = omega arith

abbrev old_failure : Report
old_failure = record {
  id = codes "r";
  device_id = none;
  kind = codes "pstore";
  received_at = 5;
  captured_at = pos 5;
  version = [];
  revision = [];
  target = [];
  arch = [];
  board_name = [];
  kernel = [];
  kernel_buildid = none;
  payload_encoding = codes "none";
  state = failed;
  visibility = private_report;
  group_id = none;
  publish_slug = none;
  raw_deleted_at = none;
}

abbrev full_state : Shared
full_state = record queue_state {
  db = record queue_state.db { reports = old_failure ∷ [] };
  raw_files = (codes "r", codes "x") ∷ (codes "q", codes "y") ∷ [];
}

collects : (gc_failed_raw 86406 (λ id. 86407) 1 full_state).raw_files ≡ (codes "q", codes "y") ∷ []
unfolding queue_runs
collects = refl

-- A report that is decoded, and a failed one of the day before.
abbrev kept_state : Shared
kept_state = record full_state {
  db = record full_state.db {
    reports =
        old_failure
        ∷ record old_failure { id = codes "q"; state = decoded }
        ∷ record old_failure { id = codes "p"; received_at = 6 }
        ∷ [];
  };
}

decoded-Keeps : All (Keeps 86406 1 (codes "q")) kept_state.db.reports
unfolding text_eq
decoded-Keeps = (inl refl, (inr (inl (λ h. cc)), (inl refl, tt)))

gc_failed_raw-kept_example :
    get_entry (codes "q") (gc_failed_raw 86406 (λ id. 86407) 1 kept_state).raw_files
    ≡ get_entry (codes "q") kept_state.raw_files
gc_failed_raw-kept_example =
    gc_failed_raw-kept 86406 (λ id. 86407) 1 kept_state (codes "q") decoded-Keeps
