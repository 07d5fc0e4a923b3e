-- ===== src/Text/Run.antt =====
-- One name to unfold for tests that run the text operations on literals.
use ucrashreport_server.Text.Chars.{
  byte_len, is_ascii_digit, is_ascii_hexdigit, is_whitespace, text_eq, to_ascii_lowercase,
}
use ucrashreport_server.Text.Lines.{join, lines, split_whitespace}
use ucrashreport_server.Text.Search.{
  contains, ends_with, find, rsplit_once, split_once, starts_with, strip_prefix, truncate_at,
}
use ucrashreport_server.Text.Trim.{
  trim, trim_end, trim_end_by, trim_matches, trim_start, trim_start_matches,
}

unfoldable pub text_runs : Unit {0}
unfolding is_ascii_digit is_ascii_hexdigit is_whitespace to_ascii_lowercase text_eq byte_len
    starts_with ends_with find contains strip_prefix split_once rsplit_once truncate_at trim_end_by
    trim_start trim_end trim trim_matches trim_start_matches lines split_whitespace join
text_runs = tt
