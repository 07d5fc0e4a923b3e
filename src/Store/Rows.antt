-- ===== src/Store/Rows.antt =====
-- The tables of migrations/0001_init.sql to 0003_kernel_buildid.sql, as records. Times are seconds
-- since the epoch, which is not in the future of any row. Columns that no source writes
-- (`issue_url`, `role`, the `state` of a group) are left out; the states are the values that the
-- sources write.
use ucrashreport_server.Base.{List, Option, ℕ}
use ucrashreport_server.Text.{Text, codes}
use ucrashreport_server.Types.{ℤ}

pub record Device : Type 0 where
  pub id : Text
  pub pubkey : Text
  pub first_seen : ℕ
  pub last_seen : ℕ

pub data ReportState : Type 0 where
  received decoded failed : ReportState

pub data Visibility : Type 0 where
  private_report public_report : Visibility

pub record Report : Type 0 where
  pub id : Text
  pub device_id : Option Text
  pub kind : Text
  pub received_at : ℕ
  pub captured_at : ℤ
  pub version : Text
  pub revision : Text
  pub target : Text
  pub arch : Text
  pub board_name : Text
  pub kernel : Text
  pub kernel_buildid : Option Text
  pub payload_encoding : Text
  pub state : ReportState
  pub visibility : Visibility
  pub group_id : Option Text
  pub publish_slug : Option Text
  pub raw_deleted_at : Option ℕ

pub data JobState : Type 0 where
  pending running done job_failed : JobState

pub record DecodeJob : Type 0 where
  pub id : Text
  pub report_id : Text
  pub state : JobState
  pub attempts : ℕ
  pub last_error : Option Text

pub record CrashGroup : Type 0 where
  pub id : Text
  pub signature : Text
  pub kind : Text
  pub title : Text
  pub modules : Text
  pub first_seen : ℕ
  pub last_seen : ℕ
  pub first_seen_version : Text

pub record DevUser : Type 0 where
  pub id : Text
  pub login : Text
  pub pw_hash : Text

-- A row of `device_token` or `dev_session`: `owner` is `device_id` or `user_id`.
pub record Token : Type 0 where
  pub token_hash : Text
  pub owner : Text
  pub expires : ℕ

pub record Db : Type 0 where
  pub devices : List Device
  pub reports : List Report
  pub jobs : List DecodeJob
  pub groups : List CrashGroup
  pub users : List DevUser
  pub device_tokens : List Token
  pub dev_sessions : List Token

-- A column's value as it is stored.
abbrev pub state_text : ReportState → Text
state_text received = codes "received"
state_text decoded = codes "decoded"
state_text failed = codes "failed"

abbrev pub visibility_text : Visibility → Text
visibility_text private_report = codes "private"
visibility_text public_report = codes "public"
