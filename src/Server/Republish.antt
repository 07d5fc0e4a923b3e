-- ===== src/Server/Republish.antt =====
-- Publishing a report that is public already, crates/ucrs-server/src/api.rs.
use ucrashreport_server.Accounts.{device_from_bearer, token_device}
use ucrashreport_server.Base.{
  Bool, Option, Option-cases, ap, arith, inl, inr, none, refl, some, subst, sym, true, ℕ, ◌&&◌, ◌∙◌,
  ◌≡◌,
}
use ucrashreport_server.Base.Results.{Result, ok}
use ucrashreport_server.Server.Crates.{Libs}
use ucrashreport_server.Server.Login.{require_device}
use ucrashreport_server.Server.Monad.{ApiError, World, proceed}
use ucrashreport_server.Server.Owners.{IsChanged, change_own_lem, my_set_visibility-IsChanged}
use ucrashreport_server.Server.Publish.{
  Published, change_own, my_set_visibility, owned_report, slug_of,
}
use ucrashreport_server.Server.Visibility.{
  clashes-with_visibility, marked, slug_after, with_visibility,
}
use ucrashreport_server.Store.{Report, option_eq, select_row}
use ucrashreport_server.Store.Lookup.{select_row-eq-some, select_row-update}
use ucrashreport_server.Text.{Text, codes, strip_prefix, text_eq}

module _ {Key : Type 0} (libs : Libs Key) where
  bearer-with_visibility :
      (now : ℕ) (header : Option Text) (id : Text) (public : Bool) (slug : Option Text) (w : World)
      → device_from_bearer libs.secrets now (with_visibility id public slug w).db header
        ≡ device_from_bearer libs.secrets now w.db header
  unfolding device_from_bearer token_device
  bearer-with_visibility now none id public slug w = refl
  bearer-with_visibility now (some value) id public slug w =
      elim (Option-cases (strip_prefix value (codes "Bearer "))) [
        | inl e ↦ rw (e, device_from_bearer) refl
        | inr (token, e) ↦ rw (e, device_from_bearer) refl
      ]

  owned_report-runs :
      (now : ℕ) (header : Option Text) (id device : Text) (row : Report) (w : World)
      → device_from_bearer libs.secrets now w.db header ≡ some device
      → select_row (λ r. text_eq r.id id && option_eq r.device_id (some device)) w.db.reports
        ≡ some row
      → owned_report libs now header id w ≡ (ok row, w)
  unfolding owned_report require_device
  owned_report-runs now header id device row w e f = rw (owned_report, e, f) refl

  -- A selection by columns that the update leaves alone.
  select-with_visibility :
      (p : Report → Bool) (id : Text) (slug : Option Text) (w : World) (row : Report)
      → ((r : Report) → p (marked true slug r) ≡ p r)
      → ((r : Report) → p r ≡ true → text_eq r.id id ≡ true)
      → select_row p w.db.reports ≡ some row
      → select_row p (with_visibility id true slug w).db.reports ≡ some (marked true slug row)
  select-with_visibility p id slug w row kept named e =
      let named_row : text_eq row.id id ≡ true =
        named row (select_row-eq-some p w.db.reports row e).0 in
      select_row-update p (λ r. text_eq r.id id) (marked true slug) w.db.reports kept
      ∙ rw (e, named_row) refl

  republish :
      (secret secret' : Text) (now now' : ℕ) (header : Option Text) (id : Text) (w : World)
      (r : Result ApiError Published) (w' : World)
      → IsChanged libs secret now header id true r w w'
      → device_from_bearer libs.secrets now' w.db header
        ≡ device_from_bearer libs.secrets now w.db header
      → (w'' : World) × (my_set_visibility libs secret' now' header id true w' ≡ (r, w''))
  unfolding my_set_visibility slug_after slug_of
  republish secret secret' now now' header id w r w' c still =
      let slug : Option Text = slug_after secret true c.row in
      let v : World = with_visibility id true slug w in
      let owned =
        owned_report-runs now' header id c.own.device (marked true slug c.owned_row) v
          (bearer-with_visibility now' header id true slug w ∙ still ∙ c.own.holder)
          (select-with_visibility
            (λ r. text_eq r.id id && option_eq r.device_id (some c.own.device)) id slug w
            c.owned_row (λ r. refl) (λ r h. ground (arith, h)) c.own.own) in
      let runs = change_own_lem libs secret' id true (marked true slug c.row) v (
        select-with_visibility (λ r. text_eq r.id id) id slug w c.row (λ r. refl) (λ r h. h)
          c.there) in
      (
        with_visibility id true slug v,
        ap (my_set_visibility libs secret' now' header id true) c.after
            ∙ ap (proceed (λ _. change_own libs secret' id true)) owned
            ∙ runs
            ∙ rw (clashes-with_visibility id true slug w, c.free) refl
            ∙ ap (λ a. (a, with_visibility id true slug v)) (sym c.answer),
      )

  -- Publishing again gives the same answer, with the address of the first time, whatever secret is
  -- drawn, as long as the request's token stands for the same device.
  pub my_set_visibility-again :
      (secret secret' : Text) (now now' : ℕ) (header : Option Text) (id : Text) (w w' : World)
      (answer : Published)
      → my_set_visibility libs secret now header id true w ≡ (ok answer, w')
      → device_from_bearer libs.secrets now' w.db header
        ≡ device_from_bearer libs.secrets now w.db header
      → (w'' : World) × (my_set_visibility libs secret' now' header id true w' ≡ (ok answer, w''))
  my_set_visibility-again secret secret' now now' header id w w' answer h still =
      elim (my_set_visibility-IsChanged libs secret now header id true w) [
        | inl c ↦
            republish secret secret' now now' header id w (ok answer) w'
              (subst (λ p. IsChanged libs secret now header id true p.0 w p.1) h c) still
        | inr (e, f) ↦ cc (h, f)
      ]
