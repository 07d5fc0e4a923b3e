-- ===== src/Decoder/Draining.antt =====
-- The worker of crates/ucrs-decoder/src/main.rs comes to an end of its queue.
use ucrashreport_server.Base.{
  All-Member, Bool-cases, List, Member, Option, [], ap, arith, false, if◌then◌else◌, inl, inr, leb,
  none, refl, some, subst, suc, sym, true, zero, ℕ, ◌+◌, ◌-◌, ◌<◌, ◌∷◌, ◌≡◌, ◌≤◌, ◌⊎◌,
}
use ucrashreport_server.Base.Results.{Result, err, ok}
use ucrashreport_server.Decoder.Attempts.{HasKeys-eq, WithinAttempts, few_attempts, settled_row}
use ucrashreport_server.Decoder.Claims.{IsClaim, claim_job-IsClaim}
use ucrashreport_server.Decoder.Queue.{
  Job, Shared, claim_job, claimed, drain, is_pending, max_attempts, process_job, update_job, work,
  work_round,
}
use ucrashreport_server.Decoder.Rounds.{
  IsOrderly, KeepsJobs, process_job-jobs, work_round-IsOrderly,
}
use ucrashreport_server.Store.{DecodeJob}
use ucrashreport_server.Text.{Text, text_eq, text_eq_iff, within}

-- The attempts that a job has left while it waits.
unfoldable pub left : DecodeJob → ℕ
left j = if is_pending j then max_attempts - j.attempts else 0

abbrev pub attempts_left : List DecodeJob → ℕ
attempts_left [] = 0
attempts_left (j ∷ js) = left j + attempts_left js

left-pending : (j : DecodeJob) → is_pending j ≡ true → left j ≡ max_attempts - j.attempts
unfolding left
left-pending j h = rw h refl

settled_row-left :
    (r : Result Text Text) (j : DecodeJob)
    → j.attempts < max_attempts
    → is_pending j ≡ true
    → left (settled_row (suc j.attempts) r (claimed j)) < left j
unfolding left settled_row
settled_row-left (ok group) j few waits = rw waits (omega arith)
settled_row-left (err e) j few waits = elim (Bool-cases (leb max_attempts (suc j.attempts))) [
  | inl k ↦ rw (k, waits) (omega arith)
  | inr k ↦ rw (k, waits) (omega arith)
]

module _ (j : DecodeJob) (r : Result Text Text) (few : j.attempts < max_attempts)
    (waits : is_pending j ≡ true) where
  abbrev after_round : List DecodeJob → List DecodeJob
  after_round jobs = update_job j.id (settled_row (suc j.attempts) r) (update_job j.id claimed jobs)

  round-left_le :
      (jobs : List DecodeJob)
      → ((x : DecodeJob) → Member x jobs → text_eq x.id j.id ≡ true → x ≡ j)
      → attempts_left (after_round jobs) ≤ attempts_left jobs
  round-left_le [] known = omega arith
  round-left_le (x ∷ xs) known =
      let rest = round-left_le xs (λ y m. known y (inr m)) in
      elim (Bool-cases (text_eq x.id j.id)) [
        | inl e ↦
            let is_j : x ≡ j = known x (inl refl) e in
            let less : left (settled_row (suc j.attempts) r (claimed x)) < left x =
              subst (λ y. left (settled_row (suc j.attempts) r (claimed y)) < left y) (sym is_j)
                (settled_row-left r j few waits) in
            rw (e, e) (omega arith)
        | inr e ↦ rw (e, e) (omega arith)
      ]

  round-left_lt :
      (jobs : List DecodeJob)
      → ((x : DecodeJob) → Member x jobs → text_eq x.id j.id ≡ true → x ≡ j)
      → Member j jobs
      → attempts_left (after_round jobs) < attempts_left jobs
  round-left_lt [] known m = elim m [ ]
  round-left_lt (x ∷ xs) known (inl is_j) =
      let rest = round-left_le xs (λ y m. known y (inr m)) in
      let less : left (settled_row (suc j.attempts) r (claimed x)) < left x =
        subst (λ y. left (settled_row (suc j.attempts) r (claimed y)) < left y) (sym is_j)
          (settled_row-left r j few waits) in
      let same : text_eq x.id j.id ≡ true = (text_eq_iff x.id j.id).1 (ap (λ k. k.id) is_j) in
      rw (same, same) (omega arith)
  round-left_lt (x ∷ xs) known (inr m) =
      let rest = round-left_lt xs (λ y n. known y (inr n)) m in
      elim (Bool-cases (text_eq x.id j.id)) [
        | inl e ↦
            let is_j : x ≡ j = known x (inl refl) e in
            let less : left (settled_row (suc j.attempts) r (claimed x)) < left x =
              subst (λ y. left (settled_row (suc j.attempts) r (claimed y)) < left y) (sym is_j)
                (settled_row-left r j few waits) in
            rw (e, e) (omega arith)
        | inr e ↦ rw (e, e) (omega arith)
      ]

-- No job of the list waits.
abbrev pub IsDrained : List DecodeJob → Type 0
IsDrained jobs = (k : DecodeJob) → Member k jobs → is_pending k ≡ false

module _ (decode : Text → Shared → Result Text Text × Shared) (keeps : KeepsJobs decode) where
  work-left :
      (s : Shared) (c : Option Job × List DecodeJob)
      → IsClaim s.db.jobs c
      → IsOrderly s.db.jobs
      → (IsDrained s.db.jobs × (work decode c s ≡ s))
        ⊎ (attempts_left (work decode c s).db.jobs < attempts_left s.db.jobs)
  unfolding work IsClaim
  work-left s (none, jobs') claim order = inl (claim.1, refl)
  work-left s (some job, jobs') (j, first, is, rows) (keys, within) =
      let v : Shared = record s { db = record s.db { jobs = jobs' } } in
      let r : Result Text Text = (decode j.report_id v).0 in
      inr (
        subst (λ k. attempts_left (process_job decode k v).db.jobs < attempts_left s.db.jobs)
          (sym is)
          (subst (λ js. attempts_left js < attempts_left s.db.jobs)
            (sym (process_job-jobs decode keeps j s.db.jobs v rows))
            (round-left_lt j r
              (few_attempts j (All-Member WithinAttempts s.db.jobs j within first.there)
                first.waits)
              first.waits s.db.jobs (λ x m e. HasKeys-eq s.db.jobs x j keys m first.there e)
              first.there)))

  round-outcome :
      (s : Shared)
      → IsOrderly s.db.jobs
      → (IsDrained s.db.jobs × (work_round decode s ≡ s))
        ⊎ (attempts_left (work_round decode s).db.jobs < attempts_left s.db.jobs)
  unfolding work_round
  round-outcome s order = work-left s (claim_job s.db.jobs) (claim_job-IsClaim s.db.jobs) order

  IsDrained-drain :
      (fuel : ℕ) (s : Shared)
      → IsDrained s.db.jobs
      → work_round decode s ≡ s
      → IsDrained (drain decode fuel s).db.jobs
  unfolding drain
  IsDrained-drain zero s no_job same = no_job
  IsDrained-drain (suc fuel) s no_job same =
      subst (λ v. IsDrained (drain decode fuel v).db.jobs) (sym same)
        (IsDrained-drain fuel s no_job same)

  drain_lem :
      (fuel : ℕ) (s : Shared)
      → IsOrderly s.db.jobs
      → attempts_left s.db.jobs ≤ fuel
      → IsDrained (drain decode fuel s).db.jobs
  unfolding drain
  drain_lem zero s order enough = elim (round-outcome s order) [
    | inl (no_job, _) ↦ no_job
    | inr less ↦ let no : ⊥ = omega arith in elim no [ ]
  ]
  drain_lem (suc fuel) s order enough = elim (round-outcome s order) [
    | inl (no_job, same) ↦ IsDrained-drain (suc fuel) s no_job same
    | inr less ↦
        drain_lem fuel (work_round decode s) (work_round-IsOrderly decode s keeps order)
          (omega arith)
  ]

-- The worker drains its queue: after as many rounds as the waiting jobs have attempts left, or
-- more, no job is pending, whatever decoding gives, if decoding leaves the jobs alone and the
-- queue was in order before: distinct ids, and no job above its attempts.
pub drain-IsDrained :
    (decode : Text → Shared → Result Text Text × Shared) (fuel : ℕ) (s : Shared)
    → KeepsJobs decode
    → IsOrderly s.db.jobs
    → attempts_left s.db.jobs ≤ fuel
    → IsDrained (drain decode fuel s).db.jobs
drain-IsDrained decode fuel s keeps order enough = drain_lem decode keeps fuel s order enough
