-- ===== src/Server/Visibility.antt =====
-- `set_visibility` of crates/ucrs-server/src/api.rs on the table of reports.
use ucrashreport_server.Base.{
  Bool, Bool-cases, List, Option, [], any, ap, false, if◌then◌else◌, inl, inr, is_some, none, not,
  refl, some, true, ◌&&◌, ◌||◌, ◌∙◌, ◌∷◌, ◌≡◌,
}
use ucrashreport_server.Base.Results.{err, ok}
use ucrashreport_server.Server.Monad.{World, internal_error}
use ucrashreport_server.Server.Publish.{change_visibility, slug_of, store_reports, write_visibility}
use ucrashreport_server.Store.{
  Report, option_eq, private_report, public_report, select_row, update_rows,
}
use ucrashreport_server.Text.{Text, text_eq, text_eq_iff}

-- The slug that a report has afterwards.
unfoldable pub slug_after : Text → Bool → Report → Option Text
slug_after secret public row = if public then some (slug_of secret row.publish_slug) else none

abbrev pub marked : Bool → Option Text → Report → Report
marked public slug r = record r {
  visibility = if public then public_report else private_report;
  publish_slug = slug;
}

-- The state after the update.
abbrev pub with_visibility : Text → Bool → Option Text → World → World
with_visibility id public slug w = record w {
  db = record w.db {
    reports = update_rows (λ r. text_eq r.id id) (marked public slug) w.db.reports;
  };
}

-- No other report has the slug.
abbrev pub clashes : Text → Option Text → List Report → Bool
clashes id slug reports =
    any (λ r. not (text_eq r.id id) && (is_some slug && option_eq r.publish_slug slug)) reports

pub change_visibility_lem :
    (secret id : Text) (public : Bool) (row : Report) (w : World)
    → change_visibility secret id public row w ≡ (
        if clashes id (slug_after secret public row) w.db.reports
        then (err internal_error, w)
        else (
          ok (some (slug_after secret public row)),
          with_visibility id public (slug_after secret public row) w,
        ))
unfolding change_visibility write_visibility store_reports slug_after
change_visibility_lem secret id true row w =
    elim (Bool-cases (clashes id (some (slug_of secret row.publish_slug)) w.db.reports)) [
      | inl e ↦ rw e refl
      | inr e ↦ rw e refl
    ]
change_visibility_lem secret id false row w = elim (Bool-cases (clashes id none w.db.reports)) [
  | inl e ↦ rw e refl
  | inr e ↦ rw e refl
]

-- The reports under other ids are as they were.
pub other-with_visibility :
    (id other : Text) (public : Bool) (slug : Option Text) (w : World)
    → text_eq id other ≡ false
    → select_row (λ r. text_eq r.id other) (with_visibility id public slug w).db.reports
      ≡ select_row (λ r. text_eq r.id other) w.db.reports
other-with_visibility id other public slug w h = others w.db.reports
  where
    others :
        (rs : List Report)
        → select_row
            (λ r. text_eq r.id other)
            (update_rows (λ r. text_eq r.id id) (marked public slug) rs)
          ≡ select_row (λ r. text_eq r.id other) rs
    others [] = refl
    others (r ∷ rs) = elim (Bool-cases (text_eq r.id id)) [
      | inl e ↦
          let differs : text_eq r.id other ≡ false =
            ap (λ t. text_eq t other) ((text_eq_iff r.id id).0 e) ∙ h in
          rw (e, differs) (others rs)
      | inr e ↦ rw e (ap (λ x. if text_eq r.id other then some r else x) (others rs))
    ]

pub clashes-with_visibility :
    (id : Text) (public : Bool) (slug : Option Text) (w : World)
    → clashes id slug (with_visibility id public slug w).db.reports ≡ clashes id slug w.db.reports
clashes-with_visibility id public slug w = same w.db.reports
  where
    same :
        (rs : List Report)
        → clashes id slug (update_rows (λ r. text_eq r.id id) (marked public slug) rs)
          ≡ clashes id slug rs
    same [] = refl
    same (r ∷ rs) = elim (Bool-cases (text_eq r.id id)) [
      | inl e ↦ rw (e, e) (same rs)
      | inr e ↦ rw (e, e) (ap (λ x. (is_some slug && option_eq r.publish_slug slug) || x) (same rs))
    ]
