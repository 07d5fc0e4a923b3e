-- ===== src/Web/AccessTests.antt =====
-- Runs of sign-in and sign-out, crates/ucrs-server/src/web.rs, with a witness for each theorem.
use ucrashreport_server.Accounts.{session_ttl_secs, verify_password}
use ucrashreport_server.Base.{[], if◌then◌else◌, ltb, refl, some, true, ◌+◌, ◌∷◌, ◌≡◌}
use ucrashreport_server.Server.{World}
use ucrashreport_server.Store.{DevUser}
use ucrashreport_server.Text.{codes}
use ucrashreport_server.Web.Access.{login_post-with_dev, logout_page-with_dev}
use ucrashreport_server.Web.Pages.{group_detail, login_post, logout_page, report_view, with_dev}
use ucrashreport_server.Web.Samples.{no_format, shown_secrets, web_config, web_runs, web_world}
use ucrashreport_server.Web.Templates.{Answer, no_such_report, redirect_to, signed_in}

abbrev signed_world : World
signed_world = record web_world {
  db = record web_world.db {
    dev_sessions = record { token_hash = codes "c"; owner = codes "u"; expires = 604805 } ∷ [];
  };
}

signs_in :
    login_post web_config shown_secrets no_format (codes "c") 5 (codes "ann") (codes "pw") web_world
    ≡ (signed_in (codes "c") (codes "/groups"), signed_world)
unfolding web_runs
signs_in = refl

views :
    (with_dev web_config shown_secrets no_format 9
      (some (codes "c"))
      (report_view web_config shown_secrets no_format (codes "x"))
      signed_world).0
    ≡ no_such_report
unfolding web_runs
views = refl

abbrev detail : DevUser → World → Answer × World
detail = group_detail web_config shown_secrets no_format (codes "g")

login_post-with_dev_example :
    (user : DevUser) × (user.login ≡ codes "ann")
    × (verify_password shown_secrets (codes "pw") user.pw_hash ≡ true)
    × (with_dev web_config shown_secrets no_format 9 (some (codes "c")) detail signed_world ≡ (
        if ltb 9 (5 + session_ttl_secs)
        then detail user signed_world
        else (redirect_to (codes "/login"), signed_world)))
login_post-with_dev_example =
    login_post-with_dev web_config shown_secrets no_format (codes "c") 5 9 (codes "ann")
      (codes "pw") (codes "c") (codes "/groups") web_world signed_world detail (refl, tt) signs_in

logout_page-with_dev_example :
    with_dev web_config shown_secrets no_format 9
      (some (codes "c"))
      detail
      (logout_page web_config shown_secrets no_format (some (codes "c")) signed_world).1
    ≡ (
      redirect_to (codes "/login"),
      (logout_page web_config shown_secrets no_format (some (codes "c")) signed_world).1,
    )
logout_page-with_dev_example =
    logout_page-with_dev web_config shown_secrets no_format 9 (codes "c") signed_world detail
