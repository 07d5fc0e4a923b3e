-- ===== src/Web/Public.antt =====
-- The public page of a report in crates/ucrs-server/src/web.rs.
use ucrashreport_server.Accounts.{Secrets}
use ucrashreport_server.Base.{
  Bool-cases, List, Member, Option, Option-cases, [], ap, arith, false, inl, inr, none, refl, some,
  some-eq, subst, true, ℕ, ◌++◌, ◌∙◌, ◌∷◌, ◌≡◌, ◌⊎◌,
}
use ucrashreport_server.Base.Results.{Result, err, ok}
use ucrashreport_server.Config.{Config}
use ucrashreport_server.Server.{ApiError, Libs, Published, World, my_set_visibility, slug_of}
use ucrashreport_server.Server.Owners.{IsChanged, my_set_visibility-IsChanged}
use ucrashreport_server.Server.Visibility.{clashes, marked, slug_after, with_visibility}
use ucrashreport_server.Store.{
  Report, Visibility, option_eq, private_report, public_report, select_row, update_rows,
}
use ucrashreport_server.Store.Lookup.{option_eq-eq, select_row-eq-some}
use ucrashreport_server.Text.{Text, codes, text_eq, text_eq_refl}
use ucrashreport_server.Web.Pages.{is_shown, public_page, public_page_of}
use ucrashreport_server.Web.Templates.{is_public, no_such_report}

-- The slug is that of one report at most.
shown-with_visibility :
    (cfg : Config) (secrets : Secrets) (format : ℕ → Option Text) (id slug : Text) (row : Report)
    (rs : List Report)
    → select_row (λ r. text_eq r.id id) rs ≡ some row
    → clashes id (some slug) rs ≡ false
    → select_row
        (is_shown cfg secrets format slug)
        (update_rows (λ r. text_eq r.id id) (marked true (some slug)) rs)
      ≡ some (marked true (some slug) row)
shown-with_visibility cfg secrets format id slug row [] e free = cc
shown-with_visibility cfg secrets format id slug row (r ∷ rs) e free =
    elim (Bool-cases (text_eq r.id id)) [
      | inl t ↦
          rw (t, text_eq_refl slug)
            (ap (λ k. some (marked true (some slug) k)) (some-eq r row (rw t at e)))
      | inr t ↦
          let other : option_eq r.publish_slug (some slug) ≡ false = ground (arith, t, free) in
          rw (t, other)
            (shown-with_visibility cfg secrets format id slug row rs (rw t at e)
              (ground (arith, free)))
    ]

hidden-with_visibility :
    (cfg : Config) (secrets : Secrets) (format : ℕ → Option Text) (id slug : Text)
    (rs : List Report)
    → clashes id (some slug) rs ≡ false
    → select_row
        (is_shown cfg secrets format slug)
        (update_rows (λ r. text_eq r.id id) (marked false none) rs)
      ≡ none
hidden-with_visibility cfg secrets format id slug [] free = refl
hidden-with_visibility cfg secrets format id slug (r ∷ rs) free =
    let rest = hidden-with_visibility cfg secrets format id slug rs (ground (arith, free)) in
    elim (Bool-cases (text_eq r.id id)) [
      | inl t ↦ rw t rest
      | inr t ↦
          let other : option_eq r.publish_slug (some slug) ≡ false = ground (arith, t, free) in
          rw (t, other) rest
    ]

abbrev answer_url : Result ApiError Published → Option Text
answer_url (ok a) = a.public_url
answer_url (err e) = none

module _ {Key : Type 0} (libs : Libs Key) (cfg : Config) (format : ℕ → Option Text) where
  -- After a device has published its report, the address in the answer leads to a slug whose public
  -- page shows that report and its decoded text, to everyone.
  pub public_page-published :
      (secret : Text) (now : ℕ) (header : Option Text) (id : Text) (w w' : World)
      (answer : Published)
      → my_set_visibility libs secret now header id true w ≡ (ok answer, w')
      → (slug : Text) × (row : Report) × (select_row (λ r. text_eq r.id id) w.db.reports ≡ some row)
        × (answer.public_url ≡ some (libs.base_url ++ (codes "/r/" ++ slug)))
        × (public_page cfg libs.secrets format slug w'
            ≡ public_page_of cfg libs.secrets format (some row) w)
  unfolding public_page public_page_of slug_after
  public_page-published secret now header id w w' answer h =
      elim (my_set_visibility-IsChanged libs secret now header id true w) [
        | inr (e, f) ↦ cc (h, f)
        | inl changed ↦
            let c = subst (λ p. IsChanged libs secret now header id true p.0 w p.1) h changed in
            let slug : Text = slug_of secret c.row.publish_slug in
            (
              slug,
              c.row,
              c.there,
              ap answer_url c.answer,
              ap (public_page cfg libs.secrets format slug) c.after
                  ∙ ap
                      (λ o.
                        public_page_of cfg libs.secrets format o
                          (with_visibility id true (some slug) w))
                      (shown-with_visibility cfg libs.secrets format id slug c.row w.db.reports
                        c.there c.free),
            )
      ]

  -- After it has unpublished the report, the page of the slug is gone, if no other report has it.
  pub public_page-unpublished :
      (secret : Text) (now : ℕ) (header : Option Text) (id slug : Text) (w w' : World)
      (answer : Published)
      → clashes id (some slug) w.db.reports ≡ false
      → my_set_visibility libs secret now header id false w ≡ (ok answer, w')
      → public_page cfg libs.secrets format slug w' ≡ no_such_report
  unfolding public_page public_page_of slug_after
  public_page-unpublished secret now header id slug w w' answer free h =
      elim (my_set_visibility-IsChanged libs secret now header id false w) [
        | inr (e, f) ↦ cc (h, f)
        | inl changed ↦
            let c = subst (λ p. IsChanged libs secret now header id false p.0 w p.1) h changed in
            ap (public_page cfg libs.secrets format slug) c.after
            ∙ ap (λ o. public_page_of cfg libs.secrets format o (with_visibility id false none w))
                (hidden-with_visibility cfg libs.secrets format id slug w.db.reports free)
      ]

is_public-eq : (v : Visibility) → is_public v ≡ true → v ≡ public_report
is_public-eq private_report h = cc
is_public-eq public_report h = refl

-- A public page shows a report that is public and has the slug, or that there is no such report.
pub public_page-is_public :
    (cfg : Config) (secrets : Secrets) (format : ℕ → Option Text) (slug : Text) (w : World)
    → (public_page cfg secrets format slug w ≡ no_such_report)
      ⊎ ((r : Report) × Member r w.db.reports
          × (r.publish_slug ≡ some slug)
          × (r.visibility ≡ public_report)
          × (public_page cfg secrets format slug w ≡ public_page_of cfg secrets format (some r) w))
unfolding public_page public_page_of
public_page-is_public cfg secrets format slug w =
    elim (Option-cases (select_row (is_shown cfg secrets format slug) w.db.reports)) [
      | inl e ↦ inl (rw e refl)
      | inr (r, e) ↦
          let (shown, there) =
            select_row-eq-some (is_shown cfg secrets format slug) w.db.reports r e in
          inr (
            r,
            there,
            option_eq-eq r.publish_slug (some slug) (ground (arith, shown)),
            is_public-eq r.visibility (ground (arith, shown)),
            rw e refl,
          )
    ]
