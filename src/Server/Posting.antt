-- ===== src/Server/Posting.antt =====
-- The answers of `post_report` in crates/ucrs-server/src/api.rs.
use ucrashreport_server.Base.{Option, Option-cases, ap, inl, inr, refl, sym, ◌∙◌, ◌≡◌, ◌≢◌, ◌⊎◌}
use ucrashreport_server.Base.Results.{err, ok}
use ucrashreport_server.Server.Admission.{check_signature-IsReader, read_report-IsReader}
use ucrashreport_server.Server.Checks.{IsRead, read_report-IsRead}
use ucrashreport_server.Server.Crates.{Headers, Libs}
use ucrashreport_server.Server.Devices.{register_device-fails, with_devices}
use ucrashreport_server.Server.Ingest.{
  Created, Draws, authenticate_device, authenticate_key, check_signature, register_device,
  respond_created,
}
use ucrashreport_server.Server.Monad.{ApiError, World, internal_error}
use ucrashreport_server.Server.Post.{accept_report, admitted_report, post_report, read_report}
use ucrashreport_server.Server.Runs.{bind-fails, bind-succeeds, reader-fails}
use ucrashreport_server.Server.Signed.{
  IsAuthenticated, IsAuthenticated-with_devices, authenticate_device-IsAuthenticated,
}
use ucrashreport_server.Server.Upload.{
  IsNew, IsReupload, finish_report-fails, finish_report-outcome,
}
use ucrashreport_server.Text.{Text, codes, get_entry}
use ucrashreport_server.Types.{ReportMetadata}
use ucrashreport_server.Usign.{Bytes}

module _ {Key : Type 0} (libs : Libs Key) where
  pub record IsPosted (draws : Draws) (headers : Headers) (body : Bytes) (created : Created)
      (w w' : World) : Type 0 where
    pub device : Option Text
    pub meta : ReportMetadata
    pub payload : Bytes
    pub middle : World
    pub authenticated :
        IsAuthenticated libs headers body (get_entry (codes "x-ucr-pubkey") headers) device w middle
    pub checked : IsRead libs headers body meta payload
    pub outcome :
        (IsReupload libs device meta middle
          × (created ≡ respond_created libs meta.uuid)
          × (w' ≡ middle))
        ⊎ IsNew libs draws device meta payload created middle w'

  -- A report that is taken carries a signature by its key if it names one, its payload is within
  -- the limit, and it has the current format, the digest of its payload and an id of the right
  -- form. Either it is the upload of a report again by the device that owns it, which changes no
  -- more, or its row, its job and its payload are added under an id that was free, its own id if
  -- that was free.
  pub post_report-IsPosted :
      (draws : Draws) (headers : Headers) (body : Bytes) (w w' : World) (created : Created)
      → post_report libs draws headers body w ≡ (ok created, w')
      → IsPosted draws headers body created w w'
  unfolding post_report admitted_report accept_report
  post_report-IsPosted draws headers body w w' created h =
      let (device, w1, h1, h') =
        bind-succeeds (authenticate_device libs draws headers body)
          (admitted_report libs draws headers body) created w w' h in
      let ((meta, payload), w2, h2, h3) =
        bind-succeeds (read_report libs headers body) (accept_report libs draws device) created w1
          w' h' in
      let (same, checked) = read_report-IsRead libs headers body meta payload w1 w2 h2 in
      record {
        device = device;
        meta = meta;
        payload = payload;
        middle = w1;
        authenticated = authenticate_device-IsAuthenticated libs draws headers body w w1 device h1;
        checked = checked;
        outcome =
            finish_report-outcome libs draws device meta payload w1 w' created _ refl
              (ap (accept_report libs draws device (meta, payload)) same ∙ h3);
      }

  authenticate_device-fails :
      (draws : Draws) (headers : Headers) (body : Bytes) (w w' : World) (e : ApiError)
      → authenticate_device libs draws headers body w ≡ (err e, w')
      → (e ≡ internal_error) ⊎ (w' ≡ w)
  unfolding authenticate_device authenticate_key
  authenticate_device-fails draws headers body w w' e h =
      elim (Option-cases (get_entry (codes "x-ucr-pubkey") headers)) [
        | inl n ↦ cc (rw (n, authenticate_device) at h)
        | inr (pubkey, s) ↦
            elim (bind-fails (check_signature libs headers body pubkey)
              (λ _. register_device libs draws pubkey) e w w' (rw (s, authenticate_device) at h)) [
                | inl f ↦
                    inr
                      (reader-fails _ (check_signature-IsReader libs headers body pubkey) e w w' f)
                | inr (_, w1, _, f) ↦ inl (register_device-fails libs draws pubkey w1 w' e f)
              ]
      ]

  -- A request that is refused for a fault of its own (any but the internal error) leaves no report,
  -- no job, no file: only the devices can differ, by the registration of its key.
  pub post_report-rejected :
      (draws : Draws) (headers : Headers) (body : Bytes) (w w' : World) (e : ApiError)
      → post_report libs draws headers body w ≡ (err e, w')
      → e ≢ internal_error
      → w' ≡ with_devices w w'.db.devices
  unfolding post_report admitted_report accept_report
  post_report-rejected draws headers body w w' e h fault =
      elim (bind-fails (authenticate_device libs draws headers body)
        (admitted_report libs draws headers body) e w w' h) [
          | inl f ↦ elim (authenticate_device-fails draws headers body w w' e f) [
            | inl is ↦ elim (fault is) [ ]
            | inr same ↦ same ∙ ap (λ v. with_devices w v.db.devices) (sym same)
          ]
          | inr (device, w1, f1, f2) ↦
              elim (bind-fails (read_report libs headers body) (accept_report libs draws device) e
                w1 w' f2) [
                  | inl f ↦
                      let same =
                        reader-fails _ (read_report-IsReader libs headers body) e w1 w' f in
                      same
                      ∙ IsAuthenticated-with_devices libs headers body _ device w w1 (
                          authenticate_device-IsAuthenticated libs draws headers body w w1 device
                            f1)
                      ∙ ap (λ v. with_devices w v.db.devices) (sym same)
                  | inr ((meta, payload), w2, _, f) ↦
                      elim (fault
                        (finish_report-fails libs draws device meta payload w2 w' e _ f)) [ ]
                ]
        ]
