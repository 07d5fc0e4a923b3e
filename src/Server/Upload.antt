-- ===== src/Server/Upload.antt =====
-- What `post_report` of crates/ucrs-server/src/api.rs has done when it answers.
use ucrashreport_server.Base.{
  Bool, Bool-cases, List, Option, [], any, any-Member, ap, arith, false, inl, inr, is_some, none,
  refl, some, subst, sym, true, ◌&&◌, ◌++◌, ◌∷◌, ◌≡◌, ◌⊎◌,
}
use ucrashreport_server.Base.Results.{err, ok}
use ucrashreport_server.Server.Crates.{Libs}
use ucrashreport_server.Server.Ingest.{Created, Draws, respond_created}
use ucrashreport_server.Server.Monad.{ApiError, World, internal_error}
use ucrashreport_server.Server.Post.{
  Chosen, already, choose_id, finish_report, job_row, report_row, store_as, store_report,
}
use ucrashreport_server.Store.{Report, option_eq, select_row}
use ucrashreport_server.Store.Lookup.{option_eq-eq, select_row-eq-some}
use ucrashreport_server.Text.{Text, set_entry, text_eq}
use ucrashreport_server.Types.{ReportMetadata}
use ucrashreport_server.Usign.{Bytes}

selected_absent :
    {A : Type 0} (p : A → Bool) (xs : List A) (x : A)
    → select_row p xs ≡ some x
    → any p xs ≡ false
    → ⊥
selected_absent p xs x e absent =
    let (holds, there) = select_row-eq-some p xs x e in cc (any-Member p x xs there holds, absent)

module _ {Key : Type 0} (libs : Libs Key) where
  -- The state with a report stored under this id.
  abbrev pub with_report : Draws → Option Text → ReportMetadata → Bytes → Text → World → World
  with_report draws device meta payload id w = record w {
    raw_files = set_entry id payload w.raw_files;
    db = record w.db {
      reports = w.db.reports ++ report_row libs draws device meta id ∷ [];
      jobs = w.db.jobs ++ job_row libs draws id ∷ [];
    };
  }

  store_report-succeeds :
      (draws : Draws) (device : Option Text) (meta : ReportMetadata) (payload : Bytes) (id : Text)
      (w w' : World) (created : Created)
      → store_report libs draws device meta payload id w ≡ (ok created, w')
      → (any (λ r. text_eq r.id id) w.db.reports ≡ false)
        × (created ≡ respond_created libs id)
        × (w' ≡ with_report draws device meta payload id w)
  unfolding store_report
  store_report-succeeds draws device meta payload id w w' created h =
      elim (Bool-cases (any (λ r. text_eq r.id id) w.db.reports)) [
        | inl e ↦ cc (rw e at h)
        | inr e ↦
            let h' = rw e at h in
            elim (Bool-cases (any (λ j. text_eq j.id draws.job_id) w.db.jobs)) [
              | inl f ↦ cc (rw f at h')
              | inr f ↦ let h'' = rw f at h' in (e, ground arith, ap (λ p. p.1) (sym h''))
            ]
      ]

  store_report-fails :
      (draws : Draws) (device : Option Text) (meta : ReportMetadata) (payload : Bytes) (id : Text)
      (w w' : World) (e : ApiError)
      → store_report libs draws device meta payload id w ≡ (err e, w')
      → e ≡ internal_error
  unfolding store_report
  store_report-fails draws device meta payload id w w' e h =
      elim (Bool-cases (any (λ r. text_eq r.id id) w.db.reports)) [
        | inl t ↦ ground (arith, rw t at h)
        | inr t ↦
            let h' = rw t at h in
            elim (Bool-cases (any (λ j. text_eq j.id draws.job_id) w.db.jobs)) [
              | inl f ↦ ground (arith, rw f at h')
              | inr f ↦ cc (rw f at h')
            ]
      ]

  -- The report is there already, from the same device.
  pub record IsReupload (device : Option Text) (meta : ReportMetadata) (w : World) : Type 0 where
    pub row : Report
    pub there : select_row (λ r. text_eq r.id meta.uuid) w.db.reports ≡ some row
    pub same_owner : row.device_id ≡ device
    pub not_anonymous : is_some device ≡ true

  -- A new row: under its own uuid, unless another report has that.
  pub record IsNew (draws : Draws) (device : Option Text) (meta : ReportMetadata) (payload : Bytes)
      (created : Created) (w w' : World) : Type 0 where
    pub id : Text
    pub own_id : any (λ r. text_eq r.id meta.uuid) w.db.reports ≡ false → id ≡ meta.uuid
    pub free : any (λ r. text_eq r.id id) w.db.reports ≡ false
    pub answer : created ≡ respond_created libs id
    pub after : w' ≡ with_report draws device meta payload id w

  store_report-IsNew :
      (draws : Draws) (device : Option Text) (meta : ReportMetadata) (payload : Bytes) (id : Text)
      (w w' : World) (created : Created)
      → (any (λ r. text_eq r.id meta.uuid) w.db.reports ≡ false → id ≡ meta.uuid)
      → store_report libs draws device meta payload id w ≡ (ok created, w')
      → IsNew draws device meta payload created w w'
  store_report-IsNew draws device meta payload id w w' created own h =
      let (free, answer, after) =
        store_report-succeeds draws device meta payload id w w' created h in
      record { id = id; own_id = own; free = free; answer = answer; after = after }

  pub finish_report-outcome :
      (draws : Draws) (device : Option Text) (meta : ReportMetadata) (payload : Bytes)
      (w w' : World) (created : Created) (o : Option Report)
      → select_row (λ r. text_eq r.id meta.uuid) w.db.reports ≡ o
      → finish_report libs draws device meta payload
          (choose_id draws.report_id meta.uuid device o)
          w
        ≡ (ok created, w')
      → (IsReupload device meta w × (created ≡ respond_created libs meta.uuid) × (w' ≡ w))
        ⊎ IsNew draws device meta payload created w w'
  unfolding finish_report choose_id
  finish_report-outcome draws device meta payload w w' created none e h =
      inr (store_report-IsNew draws device meta payload meta.uuid w w' created (λ _. refl) h)
  finish_report-outcome draws device meta payload w w' created (some row) e h =
      elim (Bool-cases (is_some row.device_id && option_eq row.device_id device)) [
        | inl t ↦
            let h' = rw t at h in
            let owner : row.device_id ≡ device =
              option_eq-eq row.device_id device (ground (arith, t)) in
            let known : is_some row.device_id ≡ true = ground (arith, t) in
            inl (
              record {
                row = row;
                there = e;
                same_owner = owner;
                not_anonymous = subst (λ d. is_some d ≡ true) owner known;
              },
              ground (arith, h'),
              ap (λ p. p.1) (sym h'),
            )
        | inr t ↦ inr (
            store_report-IsNew draws device meta payload draws.report_id w w' created
              (λ absent. elim (selected_absent _ w.db.reports row e absent) [ ]) (rw t at h))
      ]

  pub finish_report-fails :
      (draws : Draws) (device : Option Text) (meta : ReportMetadata) (payload : Bytes)
      (w w' : World) (e : ApiError) (c : Chosen)
      → finish_report libs draws device meta payload c w ≡ (err e, w')
      → e ≡ internal_error
  unfolding finish_report
  finish_report-fails draws device meta payload w w' e already h = cc
  finish_report-fails draws device meta payload w w' e (store_as id) h =
      store_report-fails draws device meta payload id w w' e h
