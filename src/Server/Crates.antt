-- ===== src/Server/Crates.antt =====
-- What crates/ucrs-server/src/api.rs takes from other crates and from the configuration.
use ucrashreport_server.Accounts.{Secrets}
use ucrashreport_server.Base.{Bool, List, Option}
use ucrashreport_server.Base.Results.{Result}
use ucrashreport_server.Text.{Text}
use ucrashreport_server.Types.{ReportMetadata}
use ucrashreport_server.Usign.{Bytes, Crypto}

-- `multer`'s stream: for each field its name, its text and its bytes, each `none` on an error.
pub data FieldStream : Type 0 where
  end_of_body broken_body : FieldStream
  field : Option Text → Option Text → Option Bytes → FieldStream → FieldStream

pub record Libs (Key : Type 0) : Type 0 where
  pub crypto : Crypto Key
  pub secrets : Secrets
  -- `Config::base_url`
  pub base_url : Text
  -- `hex::encode(Sha256::digest(bytes))`
  pub hex_sha256 : Bytes → Text
  -- `str::to_lowercase`, with the tables of Unicode
  pub to_lowercase : Text → Text
  -- `Uuid::parse_str(s).is_ok()`
  pub is_uuid : Text → Bool
  -- `multer::parse_boundary` and `multer::Multipart` on a body
  pub parse_boundary : Text → Option Text
  pub multipart : Text → Bytes → FieldStream
  -- `serde_json::from_str`, with its message on an error
  pub parse_metadata : Text → Result Text ReportMetadata
  -- `B64.encode`
  pub b64_encode : Bytes → Text

-- The request headers whose value `to_str` takes, the first of each name.
abbrev pub Headers : Type 0
Headers = List (Text × Text)
