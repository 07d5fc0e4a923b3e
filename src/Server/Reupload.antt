-- ===== src/Server/Reupload.antt =====
-- Uploading a report again, crates/ucrs-server/src/api.rs.
use ucrashreport_server.Base.{
  Bool, List, Option, [], any, ap, arith, false, inl, inr, none, refl, some, subst, sym, true, ◌∙◌,
  ◌∷◌, ◌≡◌, ◌⊎◌,
}
use ucrashreport_server.Base.Results.{Result, ok}
use ucrashreport_server.Server.Crates.{Headers, Libs}
use ucrashreport_server.Server.Devices.{IsRegistered, register_device-again, with_devices}
use ucrashreport_server.Server.Ingest.{
  Created, Draws, authenticate_device, authenticate_key, check_signature, respond_created,
}
use ucrashreport_server.Server.Monad.{ApiError, World, proceed}
use ucrashreport_server.Server.Post.{
  accept_report, admitted_report, choose_id, finish_report, post_report, read_report, report_row,
}
use ucrashreport_server.Server.Posting.{IsPosted, post_report-IsPosted}
use ucrashreport_server.Server.Signed.{IsAuthenticated, IsSigned}
use ucrashreport_server.Server.Upload.{IsNew, IsReupload, with_report}
use ucrashreport_server.Store.{Device, Report, option_eq, select_row}
use ucrashreport_server.Store.Lookup.{select_row-append}
use ucrashreport_server.Text.{Text, codes, get_entry, text_eq, text_eq_refl}
use ucrashreport_server.Types.{ReportMetadata}
use ucrashreport_server.Usign.{Bytes}

option_eq_refl : (a : Option Text) → option_eq a a ≡ true
option_eq_refl none = refl
option_eq_refl (some a) = text_eq_refl a

module _ {Key : Type 0} (libs : Libs Key) where
  authenticate_device-again :
      (draws : Draws) (headers : Headers) (body : Bytes) (pubkey id : Text) (w : World)
      → get_entry (codes "x-ucr-pubkey") headers ≡ some pubkey
      → IsSigned libs headers body pubkey
      → IsRegistered w.db.devices pubkey id
      → (devices : List Device) × (authenticate_device libs draws headers body w
          ≡ (ok (some id), with_devices w devices))
  unfolding authenticate_device authenticate_key check_signature IsSigned
  authenticate_device-again draws headers body pubkey id w e (sig, key, e1, e2, e3) known =
      let (devices, again) = register_device-again libs draws pubkey id w known in
      (devices, rw (e, authenticate_device, authenticate_key, check_signature, e1, e2, e3) again)

  -- Some report of this id is the device's.
  pub IsOwned : Text → Text → World → Type 0
  IsOwned uuid device w =
      (row : Report) × (select_row (λ r. text_eq r.id uuid) w.db.reports ≡ some row)
      × (row.device_id ≡ some device)

  finish_report-again :
      (draws : Draws) (device : Text) (meta : ReportMetadata) (payload : Bytes) (w : World)
      → IsOwned meta.uuid device w
      → accept_report libs draws (some device) (meta, payload) w
        ≡ (ok (respond_created libs meta.uuid), w)
  unfolding accept_report finish_report choose_id IsOwned
  finish_report-again draws device meta payload w (row, found, owner) =
      rw (found, owner, text_eq_refl device) refl

  none_selected : (p : Report → Bool) (rs : List Report) → any p rs ≡ false → select_row p rs ≡ none
  none_selected p [] h = refl
  none_selected p (r ∷ rs) h = ground (arith, none_selected p rs)

  -- Once a report is taken under its own id, its device owns it.
  outcome-IsOwned :
      (draws : Draws) (owner : Option Text) (device : Text) (meta : ReportMetadata)
      (payload : Bytes) (created : Created) (w w' : World)
      → owner ≡ some device
      → created.report_id ≡ meta.uuid
      → (IsReupload libs owner meta w × (created ≡ respond_created libs meta.uuid) × (w' ≡ w))
        ⊎ IsNew libs draws owner meta payload created w w'
      → IsOwned meta.uuid device w'
        × (created ≡ respond_created libs meta.uuid)
        × (w'.db.devices ≡ w.db.devices)
  unfolding IsOwned respond_created report_row
  outcome-IsOwned draws owner device meta payload created w w' is own (inl (again, answer, same)) =
      (
        subst (λ v. IsOwned meta.uuid device v) (sym same)
            (again.row, again.there, again.same_owner ∙ is),
        answer,
        ap (λ v. v.db.devices) same,
      )
  outcome-IsOwned draws owner device meta payload created w w' is own (inr new) =
      let id_is : new.id ≡ meta.uuid = ap (λ c. c.report_id) (sym new.answer) ∙ own in
      (
        subst (λ v. IsOwned meta.uuid device v) (sym new.after)
            (subst (λ k. IsOwned k device (with_report libs draws owner meta payload new.id w))
              id_is
              (
                report_row libs draws owner meta new.id,
                select_row-append _ w.db.reports _ (none_selected _ w.db.reports new.free)
                    ∙ rw (text_eq_refl new.id),
                is,
              )),
        new.answer ∙ ap (respond_created libs) id_is,
        ap (λ v. v.db.devices) new.after,
      )

  report-eq :
      (m m' : ReportMetadata) (b b' : Bytes) (w : World)
      (x : Result ApiError (ReportMetadata × Bytes) × World)
      → x ≡ (ok (m, b), w)
      → x ≡ (ok (m', b'), w)
      → m ≡ m'
  report-eq m m' b b' w x h h' = ground arith

  -- A device that uploads the same request again, before the state changes otherwise, gets the
  -- same answer whatever is drawn, if the request names its key and its report was taken under
  -- its own id; and nothing but the devices changes.
  pub post_report-again :
      (draws draws' : Draws) (headers : Headers) (body : Bytes) (w w' : World) (created : Created)
      (pubkey : Text) (meta : ReportMetadata) (payload : Bytes)
      → get_entry (codes "x-ucr-pubkey") headers ≡ some pubkey
      → post_report libs draws headers body w ≡ (ok created, w')
      → read_report libs headers body w ≡ (ok (meta, payload), w)
      → created.report_id ≡ meta.uuid
      → (devices : List Device) × (post_report libs draws' headers body w'
          ≡ (ok created, with_devices w' devices))
  unfolding post_report admitted_report IsAuthenticated IsOwned
  post_report-again draws draws' headers body w w' created pubkey meta payload e h read own =
      let p : IsPosted libs draws headers body created w w' =
        post_report-IsPosted libs draws headers body w w' created h in
      let (id, is, signed, known, _) =
        subst (λ k. IsAuthenticated libs headers body k p.device w p.middle) e p.authenticated in
      let meta_is : p.meta ≡ meta =
        report-eq p.meta meta p.payload payload w _ (p.checked.sent w) read in
      let (owned, answer, same) =
        outcome-IsOwned draws p.device id p.meta p.payload created p.middle w' is
          (own ∙ ap (λ m. m.uuid) (sym meta_is)) p.outcome in
      let (devices, again) =
        authenticate_device-again draws' headers body pubkey id w' e signed
          (subst (λ ds. IsRegistered ds pubkey id) (sym same) known) in
      let v : World = with_devices w' devices in
      (
        devices,
        ap (proceed (admitted_report libs draws' headers body)) again
            ∙ ap (proceed (accept_report libs draws' (some id))) (p.checked.sent v)
            ∙ finish_report-again draws' id p.meta p.payload v owned
            ∙ ap (λ c. (ok c, v)) (sym answer),
      )
