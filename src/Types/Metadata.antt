-- ===== src/Types/Metadata.antt =====
-- The structs of crates/ucrs-common/src/types.rs. The decoding of JSON is `serde_json`'s.
use ucrashreport_server.Base.{Option, if◌then◌else◌, is_empty, none, some, ℕ, ◌*◌}
use ucrashreport_server.Text.{Text, codes, split_once}
use ucrashreport_server.Types.Encoding.{PayloadEncoding, ReportKind}

-- An `i64` of the device, which is only stored: `negsuc n` is -(n + 1).
pub data ℤ : Type 0 where
  pos negsuc : ℕ → ℤ

abbrev pub format_version : ℕ
format_version = 1

abbrev pub max_metadata_size : ℕ
max_metadata_size = 4 * 1024

abbrev pub max_payload_size : ℕ
max_payload_size = 256 * 1024

pub record OpenwrtInfo : Type 0 where
  pub version : Text
  pub revision : Text
  pub target : Text
  pub arch : Text

pub record ReportMetadata : Type 0 where
  pub format : ℕ
  pub kind : ReportKind
  pub uuid : Text
  pub captured_at : ℤ
  pub openwrt : OpenwrtInfo
  pub board : Text
  pub kernel : Text
  pub kernel_buildid : Option Text
  pub payload_sha256 : Text
  pub payload_encoding : PayloadEncoding

-- `rest.split('-').next()`, from `rest` and its split at the first "-".
unfoldable pub first_piece : Text → Option (Text × Text) → Text
first_piece rest none = rest
first_piece rest (some (piece, _)) = piece

-- `(!hash.is_empty()).then_some(hash)`
unfoldable pub nonempty : Text → Option Text
nonempty hash = if is_empty hash then none else some hash

-- What follows the "~", if there is one.
unfoldable pub buildhash_of : Option (Text × Text) → Option Text
unfolding first_piece nonempty
buildhash_of none = none
buildhash_of (some (_, rest)) = nonempty (first_piece rest (split_once rest (codes "-")))

-- `ReportMetadata::kernel_buildhash`, of the field `kernel`.
unfoldable pub kernel_buildhash : Text → Option Text
unfolding buildhash_of
kernel_buildhash kernel = buildhash_of (split_once kernel (codes "~"))
