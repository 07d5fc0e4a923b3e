-- ===== src/Decoder/Claims.antt =====
-- Which job `claim_job` of crates/ucrs-decoder/src/decode.rs takes.
use ucrashreport_server.Base.{
  Bool-cases, List, Member, Option, [], ap, arith, false, inl, inr, none, refl, some, subst, suc,
  sym, true, ◌∙◌, ◌∷◌, ◌≡◌,
}
use ucrashreport_server.Decoder.Queue.{
  Job, claim_job, claim_row, claimed, earlier, first_pending, is_pending, text_lt, update_job,
}
use ucrashreport_server.Store.{DecodeJob}
use ucrashreport_server.Text.{Text, text_eq}

text_lt_asym : (a b : Text) → text_lt a b ≡ true → text_lt b a ≡ false
unfolding text_lt
text_lt_asym [] [] h = refl
text_lt_asym [] (y ∷ ys) h = refl
text_lt_asym (x ∷ xs) [] h = cc
text_lt_asym (x ∷ xs) (y ∷ ys) h = ground (arith, text_lt_asym xs ys)

not_lt_trans : (a b c : Text) → text_lt a b ≡ false → text_lt b c ≡ false → text_lt a c ≡ false
unfolding text_lt
not_lt_trans [] [] c h k = k
not_lt_trans [] (y ∷ ys) c h k = cc
not_lt_trans (x ∷ xs) b [] h k = refl
not_lt_trans (x ∷ xs) [] (z ∷ zs) h k = cc
not_lt_trans (x ∷ xs) (y ∷ ys) (z ∷ zs) h k = ground (arith, not_lt_trans xs ys zs)

-- The job is in the list and pending, and no pending job has a smaller id.
pub record IsFirst (jobs : List DecodeJob) (j : DecodeJob) : Type 0 where
  pub there : Member j jobs
  pub waits : is_pending j ≡ true
  pub least : (k : DecodeJob) → Member k jobs → is_pending k ≡ true → text_lt k.id j.id ≡ false

pub FirstOf : List DecodeJob → Option DecodeJob → Type 0
FirstOf jobs none = (k : DecodeJob) → Member k jobs → is_pending k ≡ false
FirstOf jobs (some j) = IsFirst jobs j

-- One more row that is not pending.
skip-FirstOf :
    (j : DecodeJob) (js : List DecodeJob) (o : Option DecodeJob)
    → is_pending j ≡ false
    → FirstOf js o
    → FirstOf (j ∷ js) o
unfolding FirstOf
skip-FirstOf j js none h f = λ k m. elim m [ inl e ↦ ap is_pending (sym e) ∙ h | inr m' ↦ f k m' ]
skip-FirstOf j js (some i) h f = record {
  there = inr f.there;
  waits = f.waits;
  least =
      λ k m waits. elim m [ inl e ↦ cc (h, waits, ap is_pending e) | inr m' ↦ f.least k m' waits ];
}

text_lt_irrefl : (a : Text) → text_lt a a ≡ false
unfolding text_lt
text_lt_irrefl [] = refl
text_lt_irrefl (x ∷ xs) = ground (arith, text_lt_irrefl xs)

-- The new row is before all others.
new-IsFirst :
    (j : DecodeJob) (js : List DecodeJob)
    → is_pending j ≡ true
    → ((k : DecodeJob) → Member k js → is_pending k ≡ true → text_lt k.id j.id ≡ false)
    → IsFirst (j ∷ js) j
new-IsFirst j js h others = record {
  there = inl refl;
  waits = h;
  least = λ k m waits. elim m [
    | inl e ↦ ap (λ x. text_lt x.id j.id) (sym e) ∙ text_lt_irrefl j.id
    | inr m' ↦ others k m' waits
  ];
}

earlier-IsFirst :
    (j : DecodeJob) (js : List DecodeJob) (o : Option DecodeJob)
    → is_pending j ≡ true
    → FirstOf js o
    → IsFirst (j ∷ js) (earlier j o)
unfolding FirstOf earlier
earlier-IsFirst j js none h f = new-IsFirst j js h (λ k m waits. cc (f k m, waits))
earlier-IsFirst j js (some i) h f = elim (Bool-cases (text_lt i.id j.id)) [
  | inl e ↦ rw e (record {
    there = inr f.there;
    waits = f.waits;
    least = λ k m waits. elim m [
      | inl same ↦ ap (λ x. text_lt x.id i.id) (sym same) ∙ text_lt_asym i.id j.id e
      | inr m' ↦ f.least k m' waits
    ];
  })
  | inr e ↦
      rw e (new-IsFirst j js h (λ k m waits. not_lt_trans k.id i.id j.id (f.least k m waits) e))
]

pub first_pending-FirstOf : (jobs : List DecodeJob) → FirstOf jobs (first_pending jobs)
unfolding first_pending FirstOf
first_pending-FirstOf [] = λ k m. elim m [ ]
first_pending-FirstOf (j ∷ js) = elim (Bool-cases (is_pending j)) [
  | inl e ↦ rw e (earlier-IsFirst j js (first_pending js) e (first_pending-FirstOf js))
  | inr e ↦ rw e (skip-FirstOf j js (first_pending js) e (first_pending-FirstOf js))
]

-- What a call of `claim_job` answers and writes.
unfoldable pub IsClaim : List DecodeJob → Option Job × List DecodeJob → Type 0
IsClaim jobs (none, jobs') =
    (jobs' ≡ jobs) × ((k : DecodeJob) → Member k jobs → is_pending k ≡ false)
IsClaim jobs (some job, jobs') =
    (j : DecodeJob) × IsFirst jobs j
    × (job ≡ record { id = j.id; report_id = j.report_id; attempts = suc j.attempts })
    × (jobs' ≡ update_job j.id claimed jobs)

claim_row-IsClaim :
    (jobs : List DecodeJob) (o : Option DecodeJob)
    → FirstOf jobs o
    → IsClaim jobs (claim_row o jobs)
unfolding IsClaim FirstOf claim_row
claim_row-IsClaim jobs none f = (refl, f)
claim_row-IsClaim jobs (some j) f = (j, f, refl, refl)

-- `claim_job` answers with no job only if none is pending, and then writes nothing. Otherwise it
-- takes the pending job with the smallest id, marks the row as running with one more attempt, and
-- answers with the row's new number of attempts.
pub claim_job-IsClaim : (jobs : List DecodeJob) → IsClaim jobs (claim_job jobs)
unfolding claim_job
claim_job-IsClaim jobs = claim_row-IsClaim jobs (first_pending jobs) (first_pending-FirstOf jobs)

-- A row that was marked as running does not wait.
claimed-not_pending :
    (id : Text) (jobs : List DecodeJob) (k : DecodeJob)
    → Member k (update_job id claimed jobs)
    → text_eq k.id id ≡ true
    → is_pending k ≡ false
claimed-not_pending id [] k m same = elim m [ ]
claimed-not_pending id (j ∷ jobs) k m same = elim (Bool-cases (text_eq j.id id)) [
  | inl e ↦ elim (rw e at m) [
    | inl eq ↦ ap is_pending (sym eq)
    | inr m' ↦ claimed-not_pending id jobs k m' same
  ]
  | inr e ↦ elim (rw e at m) [
    | inl eq ↦ cc (eq, e, same)
    | inr m' ↦ claimed-not_pending id jobs k m' same
  ]
]

-- Two claims that both get a job, one after the other with nothing in between, get different ones.
pub claim_job-claim_job :
    (jobs jobs' jobs'' : List DecodeJob) (j k : Job)
    → claim_job jobs ≡ (some j, jobs')
    → claim_job jobs' ≡ (some k, jobs'')
    → text_eq k.id j.id ≡ false
unfolding IsClaim
claim_job-claim_job jobs jobs' jobs'' j k first second =
    let (i, _, j_is, after) = subst (IsClaim jobs) first (claim_job-IsClaim jobs) in
    let (l, is_first, k_is, _) = subst (IsClaim jobs') second (claim_job-IsClaim jobs') in
    elim (Bool-cases (text_eq l.id i.id)) [
      | inl same ↦ cc (
        claimed-not_pending i.id jobs l (subst (Member l) after is_first.there) same,
        is_first.waits,
      )
      | inr other ↦ rw (j_is, k_is) other
    ]
