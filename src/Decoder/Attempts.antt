-- ===== src/Decoder/Attempts.antt =====
-- The attempts at a report, crates/ucrs-decoder/src/decode.rs: no job is tried more than three times.
use ucrashreport_server.Base.{
  All, Bool-cases, List, Member, [], any, any-Member, ap, ap₂, arith, false, if◌then◌else◌, inl,
  inr, leb, refl, some, subst, suc, sym, true, ℕ, ◌<◌, ◌||◌, ◌∙◌, ◌∷◌, ◌≡◌, ◌≤◌,
}
use ucrashreport_server.Base.Results.{Result, err, ok}
use ucrashreport_server.Decoder.Queue.{
  Job, claimed, is_pending, max_attempts, settle_job, update_job,
}
use ucrashreport_server.Store.{Db, DecodeJob, done, job_failed, pending}
use ucrashreport_server.Text.{Text, text_eq, text_eq_iff, within}

-- A row's number of attempts, by its state.
unfoldable pub WithinAttempts : DecodeJob → Type 0
WithinAttempts j = (j.attempts ≤ max_attempts) × (is_pending j ≡ true → j.attempts < max_attempts)

-- No two rows have the same id, as the primary key has it.
abbrev pub HasKeys : List DecodeJob → Type 0
HasKeys [] = Unit
HasKeys (j ∷ js) = (any (λ k. text_eq k.id j.id) js ≡ false) × HasKeys js

apart :
    (i j : DecodeJob) (js : List DecodeJob)
    → any (λ k. text_eq k.id i.id) js ≡ false
    → Member j js
    → j.id ≡ i.id
    → ⊥
apart i j js free m e =
    let clash = any-Member (λ k. text_eq k.id i.id) j js m ((text_eq_iff j.id i.id).1 e) in
    cc (clash, free)

pub HasKeys-eq :
    (jobs : List DecodeJob) (x j : DecodeJob)
    → HasKeys jobs
    → Member x jobs
    → Member j jobs
    → text_eq x.id j.id ≡ true
    → x ≡ j
HasKeys-eq [] x j keys m n e = elim m [ ]
HasKeys-eq (i ∷ js) x j keys (inl m) (inl n) e = sym m ∙ n
HasKeys-eq (i ∷ js) x j keys (inl m) (inr n) e =
    elim (apart i j js keys.0 n (sym ((text_eq_iff x.id j.id).0 e) ∙ ap (λ k. k.id) (sym m))) [ ]
HasKeys-eq (i ∷ js) x j keys (inr m) (inl n) e =
    elim (apart i x js keys.0 m ((text_eq_iff x.id j.id).0 e ∙ ap (λ k. k.id) (sym n))) [ ]
HasKeys-eq (i ∷ js) x j keys (inr m) (inr n) e = HasKeys-eq js x j keys.1 m n e

module _ (id : Text) (f : DecodeJob → DecodeJob) (same : (j : DecodeJob) → (f j).id ≡ j.id) where
  any-update_job :
      (i : Text) (jobs : List DecodeJob)
      → any (λ k. text_eq k.id i) (update_job id f jobs) ≡ any (λ k. text_eq k.id i) jobs
  any-update_job i [] = refl
  any-update_job i (j ∷ js) = ap₂ (λ t b. text_eq t i || b) (update-id j) (any-update_job i js)
    where
      update-id : (k : DecodeJob) → (if text_eq k.id id then f k else k).id ≡ k.id
      update-id k = elim (Bool-cases (text_eq k.id id)) [
        | inl e ↦ rw e (same k)
        | inr e ↦ rw e refl
      ]

  pub HasKeys-update_job : (jobs : List DecodeJob) → HasKeys jobs → HasKeys (update_job id f jobs)
  HasKeys-update_job [] keys = tt
  HasKeys-update_job (j ∷ js) (apart_is, keys) = elim (Bool-cases (text_eq j.id id)) [
    | inl e ↦ rw e (
      any-update_job (f j).id js ∙ ap (λ t. any (λ k. text_eq k.id t) js) (same j) ∙ apart_is,
      HasKeys-update_job js keys,
    )
    | inr e ↦ rw e (any-update_job j.id js ∙ apart_is, HasKeys-update_job js keys)
  ]

-- What `process_job` does to a row of its job's id.
unfoldable pub settled_row : ℕ → Result Text Text → DecodeJob → DecodeJob
settled_row attempts (ok group) j = record j { state = done }
settled_row attempts (err e) j =
    if leb max_attempts attempts
    then record j { state = job_failed; last_error = some e }
    else record j { state = pending; last_error = some e }

pub settle_job-jobs :
    (job : Job) (r : Result Text Text) (db : Db)
    → (settle_job job r db).jobs ≡ update_job job.id (settled_row job.attempts r) db.jobs
unfolding settle_job settled_row
settle_job-jobs job (ok group) db = refl
settle_job-jobs job (err e) db = elim (Bool-cases (leb max_attempts job.attempts)) [
  | inl h ↦ rw h refl
  | inr h ↦ rw h refl
]

settled_row-WithinAttempts :
    (r : Result Text Text) (j : DecodeJob)
    → j.attempts < max_attempts
    → WithinAttempts (settled_row (suc j.attempts) r (claimed j))
unfolding settled_row WithinAttempts
settled_row-WithinAttempts (ok group) j h = (h, λ e. cc)
settled_row-WithinAttempts (err e) j h = elim (Bool-cases (leb max_attempts (suc j.attempts))) [
  | inl k ↦ rw k (h, λ e. cc)
  | inr k ↦ rw k (h, λ _. ground (arith, k))
]

-- The rows of one job's round, where the job's row is known by its id.
pub round-WithinAttempts :
    (j : DecodeJob) (r : Result Text Text) (jobs : List DecodeJob)
    → j.attempts < max_attempts
    → ((x : DecodeJob) → Member x jobs → text_eq x.id j.id ≡ true → x ≡ j)
    → All WithinAttempts jobs
    → All WithinAttempts
        (update_job j.id (settled_row (suc j.attempts) r) (update_job j.id claimed jobs))
round-WithinAttempts j r [] few known within = tt
round-WithinAttempts j r (x ∷ xs) few known (here, there) =
    let rest = round-WithinAttempts j r xs few (λ y m. known y (inr m)) there in
    elim (Bool-cases (text_eq x.id j.id)) [
      | inl e ↦
          let is_j : x ≡ j = known x (inl refl) e in
          (
            rw (e, e)
                (subst (λ y. WithinAttempts (settled_row (suc j.attempts) r (claimed y))) (sym is_j)
                  (settled_row-WithinAttempts r j few)),
            rest,
          )
      | inr e ↦ (rw (e, e) here, rest)
    ]

pub settled_row-id :
    (attempts : ℕ) (r : Result Text Text) (j : DecodeJob) → (settled_row attempts r j).id ≡ j.id
unfolding settled_row
settled_row-id attempts (ok group) j = refl
settled_row-id attempts (err e) j = elim (Bool-cases (leb max_attempts attempts)) [
  | inl h ↦ rw h refl
  | inr h ↦ rw h refl
]

pub few_attempts :
    (j : DecodeJob) → WithinAttempts j → is_pending j ≡ true → j.attempts < max_attempts
unfolding WithinAttempts
few_attempts j within waits = within.1 waits
