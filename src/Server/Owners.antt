-- ===== src/Server/Owners.antt =====
-- Publishing by the owner of a report, crates/ucrs-server/src/api.rs.
use ucrashreport_server.Accounts.{device_from_bearer}
use ucrashreport_server.Base.{
  Bool, Bool-cases, Option, Option-cases, ap, false, if◌then◌else◌, inl, inr, none, refl, some,
  subst, sym, ℕ, ◌&&◌, ◌∙◌, ◌≡◌, ◌⊎◌,
}
use ucrashreport_server.Base.Results.{Result, err, ok}
use ucrashreport_server.Server.Crates.{Libs}
use ucrashreport_server.Server.Login.{require_device}
use ucrashreport_server.Server.Monad.{
  ApiError, World, internal_error, not_found, proceed, unauthorized,
}
use ucrashreport_server.Server.Publish.{
  Published, change_own, my_set_visibility, owned_report, published_answer, set_visibility,
  visibility_of,
}
use ucrashreport_server.Server.Visibility.{
  change_visibility_lem, clashes, other-with_visibility, slug_after, with_visibility,
}
use ucrashreport_server.Store.{Report, option_eq, select_row}
use ucrashreport_server.Text.{Text, codes, text_eq}

module _ {Key : Type 0} (libs : Libs Key) where
  -- A report of the device that the token stands for.
  pub record IsOwn (now : ℕ) (header : Option Text) (id : Text) (row : Report) (w : World)
      : Type 0 where
    pub device : Text
    pub holder : device_from_bearer libs.secrets now w.db header ≡ some device
    pub own :
        select_row (λ r. text_eq r.id id && option_eq r.device_id (some device)) w.db.reports
        ≡ some row

  owned_report-IsReader-cases :
      (now : ℕ) (header : Option Text) (id : Text) (w : World)
      → ((row : Report) × IsOwn now header id row w
          × (owned_report libs now header id w ≡ (ok row, w)))
        ⊎ ((e : ApiError) × (owned_report libs now header id w ≡ (err e, w)))
  unfolding owned_report require_device
  owned_report-IsReader-cases now header id w =
      elim (Option-cases (device_from_bearer libs.secrets now w.db header)) [
        | inl e ↦ inr (unauthorized (codes "missing or invalid token"), rw (owned_report, e) refl)
        | inr (device, e) ↦
            elim (Option-cases (
              select_row (λ r. text_eq r.id id && option_eq r.device_id (some device))
                w.db.reports)) [
                  | inl f ↦ inr (not_found (codes "no such report"), rw (owned_report, e, f) refl)
                  | inr (row, f) ↦ inl (
                    row,
                    record { device = device; holder = e; own = f },
                    rw (owned_report, e, f) refl,
                  )
                ]
      ]

  pub change_own_lem :
      (secret id : Text) (public : Bool) (row : Report) (w : World)
      → select_row (λ r. text_eq r.id id) w.db.reports ≡ some row
      → change_own libs secret id public w ≡ (
          if clashes id (slug_after secret public row) w.db.reports
          then (err internal_error, w)
          else (
            ok (published_answer libs public (slug_after secret public row)),
            with_visibility id public (slug_after secret public row) w,
          ))
  unfolding change_own set_visibility visibility_of
  change_own_lem secret id public row w e =
      rw (change_own, e, change_visibility_lem secret id public row w)
        (elim (Bool-cases (clashes id (slug_after secret public row) w.db.reports)) [
          | inl c ↦ rw c refl
          | inr c ↦ rw c refl
        ])

  change_own-none :
      (secret id : Text) (public : Bool) (w : World)
      → select_row (λ r. text_eq r.id id) w.db.reports ≡ none
      → change_own libs secret id public w ≡ (err (not_found (codes "no such report")), w)
  unfolding change_own set_visibility visibility_of
  change_own-none secret id public w e = rw (change_own, e) refl

  -- The report was the device's; its row has the new visibility, and no other has changed.
  pub record IsChanged (secret : Text) (now : ℕ) (header : Option Text) (id : Text) (public : Bool)
      (r : Result ApiError Published) (w w' : World) : Type 0 where
    pub owned_row : Report
    pub own : IsOwn now header id owned_row w
    pub row : Report
    pub there : select_row (λ r. text_eq r.id id) w.db.reports ≡ some row
    pub free : clashes id (slug_after secret public row) w.db.reports ≡ false
    pub answer : r ≡ ok (published_answer libs public (slug_after secret public row))
    pub after : w' ≡ with_visibility id public (slug_after secret public row) w
    pub others :
        (other : Text)
        → text_eq id other ≡ false
        → select_row (λ r. text_eq r.id other) w'.db.reports
          ≡ select_row (λ r. text_eq r.id other) w.db.reports

  change_own-IsChanged :
      (secret : Text) (now : ℕ) (header : Option Text) (id : Text) (public : Bool) (owned : Report)
      (w : World)
      → IsOwn now header id owned w
      → IsChanged secret now header id public
          (change_own libs secret id public w).0
          w
          (change_own libs secret id public w).1
        ⊎ ((e : ApiError) × (change_own libs secret id public w ≡ (err e, w)))
  change_own-IsChanged secret now header id public owned w own =
      elim (Option-cases (select_row (λ r. text_eq r.id id) w.db.reports)) [
        | inl e ↦ inr (not_found (codes "no such report"), change_own-none secret id public w e)
        | inr (row, e) ↦
            let runs = change_own_lem secret id public row w e in
            elim (Bool-cases (clashes id (slug_after secret public row) w.db.reports)) [
              | inl c ↦ inr (internal_error, runs ∙ rw c refl)
              | inr c ↦
                  let changed = runs ∙ rw c refl in
                  inl (record {
                    owned_row = owned;
                    own = own;
                    row = row;
                    there = e;
                    free = c;
                    answer = ap (λ p. p.0) changed;
                    after = ap (λ p. p.1) changed;
                    others = λ other differs.
                        ap (λ p. select_row (λ r. text_eq r.id other) p.1.db.reports) changed
                        ∙ other-with_visibility id other public (slug_after secret public row) w
                            differs;
                  })
            ]
      ]

  -- Publishing or unpublishing either is refused and changes nothing, or the report belongs to the
  -- device whose token the request carries; then its row has the new visibility and slug, which
  -- the answer tells, and the reports under all other ids are as they were.
  pub my_set_visibility-IsChanged :
      (secret : Text) (now : ℕ) (header : Option Text) (id : Text) (public : Bool) (w : World)
      → IsChanged secret now header id public
          (my_set_visibility libs secret now header id public w).0
          w
          (my_set_visibility libs secret now header id public w).1
        ⊎ ((e : ApiError) × (my_set_visibility libs secret now header id public w ≡ (err e, w)))
  unfolding my_set_visibility
  my_set_visibility-IsChanged secret now header id public w =
      elim (owned_report-IsReader-cases now header id w) [
        | inl (owned, own, e) ↦
            let same : my_set_visibility libs secret now header id public w
                ≡ change_own libs secret id public w =
              ap (proceed (λ _. change_own libs secret id public)) e in
            subst
              (λ p.
                IsChanged secret now header id public p.0 w p.1
                ⊎ ((e : ApiError) × (p ≡ (err e, w))))
              (sym same) (change_own-IsChanged secret now header id public owned w own)
        | inr (err_is, e) ↦ inr (err_is, ap (proceed (λ _. change_own libs secret id public)) e)
      ]
