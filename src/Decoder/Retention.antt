-- ===== src/Decoder/Retention.antt =====
-- What `gc_failed_raw` of crates/ucrs-decoder/src/decode.rs leaves in place.
use ucrashreport_server.Base.{
  All, Bool, Bool-cases, List, [], any, arith, false, inl, inr, is_some, keep, map, refl, true, ℕ,
  ◌&&◌, ◌*◌, ◌+◌, ◌∙◌, ◌∷◌, ◌≡◌, ◌≤◌, ◌⊎◌,
}
use ucrashreport_server.Decoder.Queue.{Shared, drop_raw, gc_failed_raw, is_stale}
use ucrashreport_server.Store.{Report, ReportState, decoded, failed, received}
use ucrashreport_server.Text.{Text, get_entry, get_entry-remove_other, text_eq}

-- A row that keeps the payload of an id: it has another id, or is not failed, or is marked as
-- deleted, or was received no more than the retention's days ago.
abbrev pub Keeps : ℕ → ℕ → Text → Report → Type 0
Keeps now days id r =
    (text_eq r.id id ≡ false)
    ⊎ (¬ (r.state ≡ failed)
        ⊎ ((is_some r.raw_deleted_at ≡ true) ⊎ (now ≤ r.received_at + days * 86400)))

State-cases : (s : ReportState) → (s ≡ failed) ⊎ ((s ≡ received) ⊎ (s ≡ decoded))
State-cases failed = inl refl
State-cases received = inr (inl refl)
State-cases decoded = inr (inr refl)

drop_raw-kept :
    (later : Text → ℕ) (id : Text) (ids : List Text) (s : Shared)
    → any (λ k. text_eq k id) ids ≡ false
    → get_entry id (drop_raw later ids s).raw_files ≡ get_entry id s.raw_files
unfolding drop_raw
drop_raw-kept later id [] s h = refl
drop_raw-kept later id (k ∷ ids) s h =
    drop_raw-kept later id ids _ (ground arith)
    ∙ get_entry-remove_other id k s.raw_files (ground arith)

ids-stale :
    (p : Report → Bool) (id : Text) (rs : List Report)
    → any (λ k. text_eq k id) (map (λ r. r.id) (keep p rs)) ≡ any (λ r. p r && text_eq r.id id) rs
ids-stale p id [] = refl
ids-stale p id (r ∷ rs) = elim (Bool-cases (p r)) [
  | inl e ↦ rw (e, ids-stale p id rs) refl
  | inr e ↦ rw (e, ids-stale p id rs) refl
]

is_stale-not_failed :
    (now days : ℕ) (r : Report) → ¬ (r.state ≡ failed) → is_stale now days r ≡ false
unfolding is_stale
is_stale-not_failed now days r h = elim (State-cases r.state) [
  | inl e ↦ absurd (h e)
  | inr (inl e) ↦ rw e refl
  | inr (inr e) ↦ rw e refl
]

is_stale-kept :
    (now days : ℕ) (r : Report)
    → (is_some r.raw_deleted_at ≡ true) ⊎ (now ≤ r.received_at + days * 86400)
    → is_stale now days r ≡ false
unfolding is_stale
is_stale-kept now days r h = ground arith

no_stale :
    (now days : ℕ) (id : Text) (rs : List Report)
    → All (Keeps now days id) rs
    → any (λ r. is_stale now days r && text_eq r.id id) rs ≡ false
no_stale now days id [] h = refl
no_stale now days id (r ∷ rs) (inl e, hs) = rw (e, no_stale now days id rs hs) (ground arith)
no_stale now days id (r ∷ rs) (inr (inl k), hs) =
    rw (is_stale-not_failed now days r k, no_stale now days id rs hs) refl
no_stale now days id (r ∷ rs) (inr (inr k), hs) =
    rw (is_stale-kept now days r k, no_stale now days id rs hs) refl

-- The collection removes a payload only if a report with its id is failed, is not marked as
-- deleted, and was received more than the retention ago: every other payload stays as it is.
pub gc_failed_raw-kept :
    (now : ℕ) (later : Text → ℕ) (days : ℕ) (s : Shared) (id : Text)
    → All (Keeps now days id) s.db.reports
    → get_entry id (gc_failed_raw now later days s).raw_files ≡ get_entry id s.raw_files
unfolding gc_failed_raw
gc_failed_raw-kept now later days s id h =
    drop_raw-kept later id _ s
      (ids-stale (is_stale now days) id s.db.reports ∙ no_stale now days id s.db.reports h)
