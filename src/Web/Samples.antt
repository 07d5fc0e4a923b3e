-- ===== src/Web/Samples.antt =====
-- Accounts, reports and groups for runs of crates/ucrs-server/src/web.rs.
use ucrashreport_server.Accounts.{
  Secrets, dev_from_cookie, device_from_bearer, insert_token, login, login_row, logout,
  open_session, session_user, token_device, token_hash_of, verify_password,
}
use ucrashreport_server.Base.{Option, [], false, none, some, true, ℕ, ◌∷◌}
use ucrashreport_server.Base.Results.{err}
use ucrashreport_server.Config.{
  Config, default_data_dir, default_database_url, default_instance_name, default_listen,
  default_raw_failed_retention_days, default_symbols,
}
use ucrashreport_server.Server.{
  Libs, World, change_own, change_visibility, end_of_body, my_set_visibility, owned_report,
  require_device, set_visibility, slug_of, store_reports, visibility_of, write_visibility,
}
use ucrashreport_server.Store.{CrashGroup, Report, decoded, insert_row, order_by, private_report}
use ucrashreport_server.Text.{Text, codes, show_nat, text_eq, text_runs}
use ucrashreport_server.Types.{pos}
use ucrashreport_server.Web.Groups.{
  breakdown, fmt_ts, group_row, in_window, is_counted, joined_groups, key_counts, outranks,
  query_groups, window_secs,
}
use ucrashreport_server.Web.Pages.{
  group_detail, group_page, login_answer, login_post, logout_page, public_page, public_page_of,
  publish_post, report_row_of, report_view, visibility_answer, with_dev,
}

unfoldable pub web_runs : Unit {0}
unfolding query_groups is_counted joined_groups order_by insert_row outranks group_row fmt_ts
    window_secs in_window breakdown key_counts login_post login_answer logout_page with_dev
    group_detail group_page report_row_of report_view publish_post visibility_answer public_page
    public_page_of login login_row open_session insert_token token_hash_of verify_password logout
    dev_from_cookie session_user my_set_visibility owned_report require_device device_from_bearer
    token_device change_own set_visibility visibility_of change_visibility slug_of write_visibility
    store_reports show_nat text_runs
web_runs = tt

abbrev pub shown_secrets : Secrets
shown_secrets = record {
  token_digest = λ t. t;
  argon2_hash = λ salt password. some password;
  argon2_verify = λ password hash. text_eq password hash;
}

abbrev pub toy_libs : Libs (Unit {0})
toy_libs = record {
  crypto = record {
    b64_decode = λ t. none;
    key_from_bytes = λ b. none;
    verify_strict = λ key msg sig. false;
  };
  secrets = shown_secrets;
  base_url = codes "http://h";
  hex_sha256 = λ b. b;
  to_lowercase = λ t. t;
  is_uuid = λ t. true;
  parse_boundary = λ t. none;
  multipart = λ boundary body. end_of_body;
  parse_metadata = λ t. err t;
  b64_encode = λ b. b;
}

abbrev pub no_format : ℕ → Option Text
no_format ts = none

abbrev pub web_config : Config
web_config = record {
  instance_name = default_instance_name;
  listen = default_listen;
  base_url = codes "http://h";
  data_dir = default_data_dir;
  database_url = default_database_url;
  raw_failed_retention_days = default_raw_failed_retention_days;
  symbols = default_symbols;
}

abbrev pub first_report : Report
first_report = record {
  id = codes "r";
  device_id = some (codes "d");
  kind = codes "pstore";
  received_at = 5;
  captured_at = pos 5;
  version = codes "9";
  revision = [];
  target = codes "ath/gen";
  arch = [];
  board_name = codes "pc";
  kernel = [];
  kernel_buildid = none;
  payload_encoding = codes "none";
  state = decoded;
  visibility = private_report;
  group_id = some (codes "g");
  publish_slug = none;
  raw_deleted_at = some 6;
}

abbrev pub second_report : Report
second_report = record first_report { id = codes "q"; received_at = 7; group_id = some (codes "h") }

abbrev pub third_report : Report
third_report = record first_report { id = codes "p"; received_at = 8; version = codes "8" }

abbrev pub first_group : CrashGroup
first_group = record {
  id = codes "g";
  signature = codes "s";
  kind = codes "pstore";
  title = codes "ath_tx";
  modules = codes "ath";
  first_seen = 5;
  last_seen = 8;
  first_seen_version = codes "9";
}

abbrev pub web_world : World
web_world = record {
  db = record {
    devices = [];
    reports = first_report ∷ second_report ∷ third_report ∷ [];
    jobs = [];
    groups = record first_group { id = codes "h"; signature = codes "t" } ∷ first_group ∷ [];
    users = record { id = codes "u"; login = codes "ann"; pw_hash = codes "pw" } ∷ [];
    device_tokens = record { token_hash = codes "t"; owner = codes "d"; expires = 90 } ∷ [];
    dev_sessions = [];
  };
  raw_files = [];
  decoded_files = (codes "r", codes "Oops") ∷ [];
  nonces = [];
}

abbrev pub web_bearer : Option Text
web_bearer = some (codes "Bearer t")
