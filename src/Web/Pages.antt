-- ===== src/Web/Pages.antt =====
-- The handlers of crates/ucrs-server/src/web.rs. A page is what its template is given.
use ucrashreport_server.Accounts.{Failure, Secrets, dev_from_cookie, login, logout}
use ucrashreport_server.Base.{
  Bool, List, Option, [], keep, length, map, none, some, take, ℕ, ◌&&◌, ◌++◌,
}
use ucrashreport_server.Base.Results.{Result, err, ok}
use ucrashreport_server.Config.{Config}
use ucrashreport_server.Server.{ApiError, World, later_report, set_visibility}
use ucrashreport_server.Store.{
  CrashGroup, Db, DevUser, Report, option_eq, order_by, select_row, state_text, visibility_text,
}
use ucrashreport_server.Text.{Text, codes, get_entry, text_eq}
use ucrashreport_server.Web.Groups.{breakdown, distinct_devices, fmt_ts, in_group, query_groups}
use ucrashreport_server.Web.Templates.{
  Answer, GroupTemplate, GroupsQuery, ReportRow, group_html, groups_html, html, is_public,
  login_html, my_html, no_such_report, or_empty, public_html, redirect_to, report_html, signed_in,
  signed_out, status,
}
use mathlib.Core.Option

-- What `login_post` answers to the result of `login`.
unfoldable pub login_answer : Text → Result Failure (Option Text × Db) → World → Answer × World
login_answer name (ok (some token, db)) w =
    (signed_in token (codes "/groups"), record w { db = db })
login_answer name (ok (none, db)) w = (
  html (login_html (record { instance_name = name; error = codes "Invalid login or password." })),
  record w { db = db },
)
login_answer name (err e) w = (status 500 [], w)

-- What `publish` and `unpublish` answer.
unfoldable pub visibility_answer :
    Text → Result ApiError (Option (Option Text)) × World → Answer × World
visibility_answer id (ok (some slug), w) = (redirect_to (codes "/reports/" ++ id), w)
visibility_answer id (ok none, w) = (no_such_report, w)
visibility_answer id (err e, w) = (status 500 [], w)

module _ (cfg : Config) (secrets : Secrets) (format : ℕ → Option Text) where
  abbrev pub index_page : Answer
  index_page = redirect_to (codes "/groups")

  abbrev pub login_page : Answer
  login_page = html (login_html (record { instance_name = cfg.instance_name; error = [] }))

  unfoldable pub login_post : Text → ℕ → Text → Text → World → Answer × World
  unfolding login login_answer
  login_post secret now name password w =
      login_answer cfg.instance_name (login secrets secret now w.db name password) w

  -- `logout`, by the session cookie
  unfoldable pub logout_page : Option Text → World → Answer × World
  unfolding logout
  logout_page none w = (signed_out (codes "/login"), w)
  logout_page (some cookie) w =
      (signed_out (codes "/login"), record w { db = logout secrets w.db cookie })

  -- A handler with a `Dev` argument, whose extraction redirects.
  unfoldable pub with_dev :
      ℕ → Option Text → (DevUser → World → Answer × World) → World → Answer × World
  unfolding dev_from_cookie
  with_dev now cookie handler w = elim (dev_from_cookie secrets now w.db cookie) [
    | none ↦ (redirect_to (codes "/login"), w)
    | some dev ↦ handler dev w
  ]

  abbrev pub groups_page : ℕ → GroupsQuery → DevUser → World → Answer × World
  groups_page now q dev w =
      let window : Text = elim q.window [ none ↦ codes "7d" | some t ↦ t ] in
      (
        html (
            groups_html (record {
              instance_name = cfg.instance_name;
              login_name = dev.login;
              window = window;
              kind = or_empty q.kind;
              version = or_empty q.version;
              target = or_empty q.target;
              groups =
                  query_groups format now window (or_empty q.kind) (or_empty q.version)
                    (or_empty q.target) w.db;
            })),
        w,
      )

  unfoldable pub report_row_of : Report → ReportRow
  unfolding fmt_ts
  report_row_of r = record {
    id = r.id;
    received_at = fmt_ts format r.received_at;
    version = r.version;
    target = r.target;
    board = r.board_name;
    state = state_text r.state;
    visibility = visibility_text r.visibility;
  }

  -- The page of a group that is there.
  unfoldable pub group_page : CrashGroup → Text → DevUser → Db → GroupTemplate
  unfolding report_row_of breakdown order_by fmt_ts
  group_page g id dev db =
      let rs = keep (in_group id) db.reports in
      record {
        instance_name = cfg.instance_name;
        login_name = dev.login;
        group = g;
        first_seen = fmt_ts format g.first_seen;
        last_seen = fmt_ts format g.last_seen;
        issue_url = [];
        report_count = length rs;
        device_count = distinct_devices rs;
        by_version = breakdown (λ r. r.version) id db.reports;
        by_target = breakdown (λ r. r.target) id db.reports;
        by_board = breakdown (λ r. r.board_name) id db.reports;
        reports = map report_row_of (take 20 (order_by later_report rs));
      }

  unfoldable pub group_detail : Text → DevUser → World → Answer × World
  unfolding group_page
  group_detail id dev w = elim (select_row (λ g. text_eq g.id id) w.db.groups) [
    | none ↦ (status 404 (codes "no such group"), w)
    | some g ↦ (html (group_html (group_page g id dev w.db)), w)
  ]

  -- `LEFT JOIN crash_group g ON g.id = r.group_id`
  abbrev pub group_title_of : Option Text → List CrashGroup → Option Text
  group_title_of none groups = none
  group_title_of (some id) groups =
      Option.map (λ g. g.title) (select_row (λ g. text_eq g.id id) groups)

  unfoldable pub report_view : Text → DevUser → World → Answer × World
  unfolding fmt_ts
  report_view id dev w = elim (select_row (λ r. text_eq r.id id) w.db.reports) [
    | none ↦ (no_such_report, w)
    | some r ↦ (
      html (
          report_html (record {
            instance_name = cfg.instance_name;
            login_name = dev.login;
            report = r;
            group_id = or_empty r.group_id;
            group_title = or_empty (group_title_of r.group_id w.db.groups);
            received_at = fmt_ts format r.received_at;
            slug = or_empty r.publish_slug;
            decoded_text = or_empty (get_entry id w.decoded_files);
          })),
      w,
    )
  ]

  -- `publish` and `unpublish`
  unfoldable pub publish_post : Text → Bool → Text → DevUser → World → Answer × World
  unfolding set_visibility visibility_answer
  publish_post secret public id dev w = visibility_answer id (set_visibility secret id public w)

  unfoldable pub public_page_of : Option Report → World → Answer
  public_page_of none w = no_such_report
  public_page_of (some r) w = html (
      public_html (record {
        instance_name = cfg.instance_name;
        kind = r.kind;
        version = r.version;
        revision = r.revision;
        target = r.target;
        arch = r.arch;
        board = r.board_name;
        kernel = r.kernel;
        decoded_text = or_empty (get_entry r.id w.decoded_files);
      }))

  -- `publish_slug = ? AND visibility = 'public'`
  abbrev pub is_shown : Text → Report → Bool
  is_shown slug r = option_eq r.publish_slug (some slug) && is_public r.visibility

  -- `public_report`
  unfoldable pub public_page : Text → World → Answer
  unfolding public_page_of
  public_page slug w = public_page_of (select_row (is_shown slug) w.db.reports) w

  abbrev pub my_page : Answer
  my_page = html (my_html cfg.instance_name)
