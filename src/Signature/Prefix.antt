-- ===== src/Signature/Prefix.antt =====
-- `strip_printk_prefix` of crates/ucrs-common/src/signature.rs.
use ucrashreport_server.Base.{
  Bool, all, if◌then◌else◌, is_empty, none, not, some, ℕ, ◌&&◌, ◌==◌, ◌||◌,
}
use ucrashreport_server.Text.{
  Text, codes, contains, is_ascii_digit, split_once, strip_prefix, trim, trim_start,
}

abbrev pub is_stamp_char : ℕ → Bool
is_stamp_char c = is_ascii_digit c || c == b'.'

-- The syslog level "<7>".
unfoldable pub strip_level : Text → Text
strip_level s = elim (strip_prefix s (codes "<")) [
  | none ↦ s
  | some rest ↦ elim (split_once rest (codes ">")) [
    | none ↦ s
    | some (level, after) ↦
        if not (is_empty level) && all is_ascii_digit level then trim_start after else s
  ]
]

-- The timestamp, in brackets or bare.
unfoldable pub strip_stamp : Text → Text
strip_stamp s = elim (strip_prefix s (codes "[")) [
  | some rest ↦ elim (split_once rest (codes "]")) [
    | some (ts, after) ↦ if all is_stamp_char (trim ts) then trim after else trim s
    | none ↦ trim s
  ]
  | none ↦ elim (split_once s (codes " ")) [
    | some (first, rest) ↦
        if contains first (codes ".") && all is_stamp_char first then trim rest else trim s
    | none ↦ trim s
  ]
]

unfoldable pub strip_printk_prefix : Text → Text
unfolding strip_level strip_stamp
strip_printk_prefix raw = strip_stamp (strip_level (trim_start raw))
