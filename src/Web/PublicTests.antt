-- ===== src/Web/PublicTests.antt =====
-- Runs of the public page of crates/ucrs-server/src/web.rs, with a witness for each theorem.
use ucrashreport_server.Base.{Member, false, none, refl, some, true, ◌++◌, ◌≡◌, ◌⊎◌}
use ucrashreport_server.Base.Results.{ok}
use ucrashreport_server.Server.{World, my_set_visibility, published_answer}
use ucrashreport_server.Server.Visibility.{clashes, with_visibility}
use ucrashreport_server.Store.{Report, public_report, select_row}
use ucrashreport_server.Text.{Text, codes, text_eq}
use ucrashreport_server.Web.Pages.{public_page, public_page_of}
use ucrashreport_server.Web.Public.{
  public_page-is_public, public_page-published, public_page-unpublished,
}
use ucrashreport_server.Web.Samples.{
  no_format, shown_secrets, toy_libs, web_bearer, web_config, web_runs, web_world,
}
use ucrashreport_server.Web.Templates.{no_such_report}

abbrev shown_world : World
shown_world = with_visibility (codes "r") true (some (codes "0123456789abcdef")) web_world

publishes :
    my_set_visibility toy_libs (codes "0123456789abcdef0") 60 web_bearer (codes "r") true web_world
    ≡ (ok (published_answer toy_libs true (some (codes "0123456789abcdef"))), shown_world)
unfolding web_runs
publishes = refl

public_page-published_example :
    (slug : Text) × (row : Report) × (select_row
        (λ r. text_eq r.id (codes "r"))
        web_world.db.reports
      ≡ some row)
    × ((published_answer toy_libs true (some (codes "0123456789abcdef"))).public_url
        ≡ some (toy_libs.base_url ++ (codes "/r/" ++ slug)))
    × (public_page web_config toy_libs.secrets no_format slug shown_world
        ≡ public_page_of web_config toy_libs.secrets no_format (some row) web_world)
public_page-published_example =
    public_page-published toy_libs web_config no_format (codes "0123456789abcdef0") 60 web_bearer
      (codes "r") web_world shown_world
      (published_answer toy_libs true (some (codes "0123456789abcdef"))) publishes

unpublishes : my_set_visibility toy_libs (codes "x") 60 web_bearer (codes "r") false shown_world ≡ (
  ok (published_answer toy_libs false none),
  with_visibility (codes "r") false none shown_world,
)
unfolding web_runs
unpublishes = refl

only_slug : clashes (codes "r") (some (codes "0123456789abcdef")) shown_world.db.reports ≡ false
unfolding web_runs
only_slug = refl

public_page-unpublished_example :
    public_page web_config toy_libs.secrets no_format
      (codes "0123456789abcdef")
      (with_visibility (codes "r") false none shown_world)
    ≡ no_such_report
public_page-unpublished_example =
    public_page-unpublished toy_libs web_config no_format (codes "x") 60 web_bearer (codes "r")
      (codes "0123456789abcdef") shown_world (with_visibility (codes "r") false none shown_world)
      (published_answer toy_libs false none) only_slug unpublishes

public_page-is_public_example :
    (public_page web_config shown_secrets no_format (codes "0123456789abcdef") shown_world
      ≡ no_such_report)
    ⊎ ((r : Report) × Member r shown_world.db.reports
        × (r.publish_slug ≡ some (codes "0123456789abcdef"))
        × (r.visibility ≡ public_report)
        × (public_page web_config shown_secrets no_format (codes "0123456789abcdef") shown_world
            ≡ public_page_of web_config shown_secrets no_format (some r) shown_world))
public_page-is_public_example =
    public_page-is_public web_config shown_secrets no_format (codes "0123456789abcdef") shown_world
