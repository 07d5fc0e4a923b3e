-- ===== src/Server/Publish.antt =====
-- Publishing reports, and a device's own reports: crates/ucrs-server/src/api.rs.
use ucrashreport_server.Base.{
  Bool, List, Option, any, false, if◌then◌else◌, is_some, none, not, some, take, true, ℕ, ◌&&◌,
  ◌++◌,
}
use ucrashreport_server.Base.Results.{Result, err, ok}
use ucrashreport_server.Server.Crates.{Libs}
use ucrashreport_server.Server.Login.{require_device}
use ucrashreport_server.Server.Monad.{
  ApiError, Handler, gets, internal_error, not_found, pure, require, ◌>>=◌, ◌>>◌,
}
use ucrashreport_server.Store.{
  Report, Visibility, option_eq, private_report, public_report, select_row, update_rows,
}
use ucrashreport_server.Text.{Text, codes, get_entry, text_eq}
use mathlib.Core.Option

-- `publish_slug.unwrap_or_else(|| new_secret()[..16].to_string())`
unfoldable pub slug_of : Text → Option Text → Text
slug_of secret none = take 16 secret
slug_of secret (some slug) = slug

-- `UPDATE report SET visibility, publish_slug WHERE id`, with the unique column `publish_slug`.
unfoldable pub write_visibility :
    Text → Visibility → Option Text → List Report → Result ApiError (List Report)
write_visibility id visibility slug reports =
    if any (λ r. not (text_eq r.id id) && (is_some slug && option_eq r.publish_slug slug)) reports
    then err internal_error
    else ok (
        update_rows (λ r. text_eq r.id id)
          (λ r. record r { visibility = visibility; publish_slug = slug }) reports)

unfoldable pub store_reports : Result ApiError (List Report) → Handler (Unit {0})
store_reports (err e) w = (err e, w)
store_reports (ok reports) w = (ok tt, record w { db = record w.db { reports = reports } })

-- `set_visibility` of a report that exists.
unfoldable pub change_visibility : Text → Text → Bool → Report → Handler (Option (Option Text))
unfolding slug_of write_visibility store_reports
change_visibility secret id true row = do
  let slug : Text = slug_of secret row.publish_slug
  reports ← gets (λ w. w.db.reports)
  store_reports (write_visibility id public_report (some slug) reports)
  pure (some (some slug))
change_visibility secret id false row = do
  reports ← gets (λ w. w.db.reports)
  store_reports (write_visibility id private_report none reports)
  pure (some none)

unfoldable pub visibility_of : Text → Text → Bool → Option Report → Handler (Option (Option Text))
unfolding change_visibility
visibility_of secret id public none = pure none
visibility_of secret id public (some row) = change_visibility secret id public row

-- `set_visibility`, with the secret that a new slug is cut from.
unfoldable pub set_visibility : Text → Text → Bool → Handler (Option (Option Text))
unfolding visibility_of
set_visibility secret id public = do
  reports ← gets (λ w. w.db.reports)
  visibility_of secret id public (select_row (λ r. text_eq r.id id) reports)

pub record Published : Type 0 where
  pub visibility : Text
  pub public_url : Option Text

pub record Detail : Type 0 where
  pub report : Report
  pub decoded_text : Option Text

module _ {Key : Type 0} (libs : Libs Key) where
  unfoldable pub owned_report : ℕ → Option Text → Text → Handler Report
  unfolding require_device
  owned_report now header id = do
    device ← require_device libs now header
    reports ← gets (λ w. w.db.reports)
    require (select_row (λ r. text_eq r.id id && option_eq r.device_id (some device)) reports)
        (not_found (codes "no such report"))

  -- `my_report_detail`; of the row it answers with eight columns.
  unfoldable pub my_report_detail : ℕ → Option Text → Text → Handler Detail
  unfolding owned_report
  my_report_detail now header id = do
    row ← owned_report now header id
    text ← gets (λ w. get_entry id w.decoded_files)
    pure (record { report = row; decoded_text = text })

  abbrev pub published_answer : Bool → Option Text → Published
  published_answer public slug = record {
    visibility = if public then codes "public" else codes "private";
    public_url = Option.map (λ s. libs.base_url ++ (codes "/r/" ++ s)) slug;
  }

  -- `my_set_visibility` once the report is known to be the device's.
  unfoldable pub change_own : Text → Text → Bool → Handler Published
  unfolding set_visibility
  change_own secret id public = do
    found ← set_visibility secret id public
    slug ← require found (not_found (codes "no such report"))
    pure (published_answer public slug)

  -- `my_set_visibility`, for `my_publish` and `my_unpublish`.
  unfoldable pub my_set_visibility : Text → ℕ → Option Text → Text → Bool → Handler Published
  unfolding owned_report change_own
  my_set_visibility secret now header id public = do
    _ ← owned_report now header id
    change_own secret id public
