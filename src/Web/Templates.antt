-- ===== src/Web/Templates.antt =====
-- What the templates of crates/ucrs-server/src/web.rs are given, and what its handlers answer.
use ucrashreport_server.Base.{Bool, List, Option, [], false, none, some, true, ℕ}
use ucrashreport_server.Store.{CrashGroup, Report, Visibility, private_report, public_report}
use ucrashreport_server.Text.{Text, codes}
use ucrashreport_server.Web.Groups.{GroupRow, KeyCount}

pub record LoginTemplate : Type 0 where
  pub instance_name : Text
  pub error : Text

pub record GroupsTemplate : Type 0 where
  pub instance_name : Text
  pub login_name : Text
  pub window : Text
  pub kind : Text
  pub version : Text
  pub target : Text
  pub groups : List GroupRow

pub record ReportRow : Type 0 where
  pub id : Text
  pub received_at : Text
  pub version : Text
  pub target : Text
  pub board : Text
  pub state : Text
  pub visibility : Text

pub record GroupTemplate : Type 0 where
  pub instance_name : Text
  pub login_name : Text
  pub group : CrashGroup
  pub first_seen : Text
  pub last_seen : Text
  pub issue_url : Text
  pub report_count : ℕ
  pub device_count : ℕ
  pub by_version : List KeyCount
  pub by_target : List KeyCount
  pub by_board : List KeyCount
  pub reports : List ReportRow

pub record ReportTemplate : Type 0 where
  pub instance_name : Text
  pub login_name : Text
  pub report : Report
  pub group_id : Text
  pub group_title : Text
  pub received_at : Text
  pub slug : Text
  pub decoded_text : Text

pub record PublicTemplate : Type 0 where
  pub instance_name : Text
  pub kind : Text
  pub version : Text
  pub revision : Text
  pub target : Text
  pub arch : Text
  pub board : Text
  pub kernel : Text
  pub decoded_text : Text

pub data Page : Type 0 where
  login_html : LoginTemplate → Page
  groups_html : GroupsTemplate → Page
  group_html : GroupTemplate → Page
  report_html : ReportTemplate → Page
  public_html : PublicTemplate → Page
  my_html : Text → Page

-- A page, a redirect that may set or remove the session cookie, or a status with a text.
pub data Answer : Type 0 where
  html : Page → Answer
  redirect_to : Text → Answer
  signed_in : Text → Text → Answer
  signed_out : Text → Answer
  status : ℕ → Text → Answer

-- `GroupsQuery`
pub record GroupsQuery : Type 0 where
  pub window : Option Text
  pub kind : Option Text
  pub version : Option Text
  pub target : Option Text

-- `unwrap_or_default` of a text
abbrev pub or_empty : Option Text → Text
or_empty none = []
or_empty (some t) = t

abbrev pub is_public : Visibility → Bool
is_public private_report = false
is_public public_report = true

abbrev pub no_such_report : Answer
no_such_report = status 404 (codes "no such report")
