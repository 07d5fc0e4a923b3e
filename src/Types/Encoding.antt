-- ===== src/Types/Encoding.antt =====
-- The enums of crates/ucrs-common/src/types.rs with their texts.
use ucrashreport_server.Base.{if◌then◌else◌, ◌++◌}
use ucrashreport_server.Base.Results.{Result, err, ok}
use ucrashreport_server.Text.{Text, codes, text_eq}

pub data ReportKind : Type 0 where
  kernel_oops pstore : ReportKind

-- `ReportKind::as_str`
unfoldable pub kind_as_str : ReportKind → Text
kind_as_str kernel_oops = codes "kernel_oops"
kind_as_str pstore = codes "pstore"

-- `plain` is the source's `None`.
pub data PayloadEncoding : Type 0 where
  plain gzip zstd zlib : PayloadEncoding

-- `PayloadEncoding::as_str`
unfoldable pub encoding_as_str : PayloadEncoding → Text
encoding_as_str plain = codes "none"
encoding_as_str gzip = codes "gzip"
encoding_as_str zstd = codes "zstd"
encoding_as_str zlib = codes "zlib"

-- `PayloadEncoding::from_str`; the error is its message.
unfoldable pub encoding_from_str : Text → Result Text PayloadEncoding
encoding_from_str s =
    if text_eq s (codes "none")
    then ok plain
    else if text_eq s (codes "gzip")
    then ok gzip
    else if text_eq s (codes "zstd")
    then ok zstd
    else if text_eq s (codes "zlib")
    then ok zlib
    else err (codes "unknown payload encoding " ++ s)
