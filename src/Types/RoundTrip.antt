-- ===== src/Types/RoundTrip.antt =====
-- The texts of crates/ucrs-common/src/types.rs read back.
use ucrashreport_server.Base.{[], any, ap, arith, false, is_empty, some, ◌++◌, ◌==◌, ◌↔◌, ◌∙◌, ◌≡◌}
use ucrashreport_server.Base.Results.{ok}
use ucrashreport_server.Text.{Text, codes, text_eq_iff}
use ucrashreport_server.Text.Splits.{split_once-append}
use ucrashreport_server.Types.Encoding.{
  PayloadEncoding, encoding_as_str, encoding_from_str, gzip, plain, zlib, zstd,
}
use ucrashreport_server.Types.Metadata.{buildhash_of, first_piece, kernel_buildhash, nonempty}

-- Every encoding is read back from its text, and what is read is an encoding's text.
pub encoding_from_str-as_str :
    (s : Text) (e : PayloadEncoding) → (encoding_from_str s ≡ ok e) ↔ (s ≡ encoding_as_str e)
unfolding encoding_from_str encoding_as_str
encoding_from_str-as_str s plain = ground (
  arith,
  text_eq_iff s (codes "none"),
  text_eq_iff s (codes "gzip"),
  text_eq_iff s (codes "zstd"),
  text_eq_iff s (codes "zlib"),
)
encoding_from_str-as_str s gzip = ground (
  arith,
  text_eq_iff s (codes "none"),
  text_eq_iff s (codes "gzip"),
  text_eq_iff s (codes "zstd"),
  text_eq_iff s (codes "zlib"),
)
encoding_from_str-as_str s zstd = ground (
  arith,
  text_eq_iff s (codes "none"),
  text_eq_iff s (codes "gzip"),
  text_eq_iff s (codes "zstd"),
  text_eq_iff s (codes "zlib"),
)
encoding_from_str-as_str s zlib = ground (
  arith,
  text_eq_iff s (codes "none"),
  text_eq_iff s (codes "gzip"),
  text_eq_iff s (codes "zstd"),
  text_eq_iff s (codes "zlib"),
)

-- The hash between the first "~" and the next "-" of a kernel version is found.
pub kernel_buildhash-append :
    (v hash r : Text)
    → any (λ c. c == b'~') v ≡ false
    → any (λ c. c == b'-') hash ≡ false
    → is_empty hash ≡ false
    → kernel_buildhash (v ++ (codes "~" ++ (hash ++ (codes "-" ++ r)))) ≡ some hash
unfolding kernel_buildhash
kernel_buildhash-append v hash r hv hh ne =
    ap buildhash_of (split_once-append v b'~' [] (hash ++ (codes "-" ++ r)) hv)
    ∙ ap (λ o. nonempty (first_piece (hash ++ (codes "-" ++ r)) o))
        (split_once-append hash b'-' [] r hh)
    ∙ rw ne
