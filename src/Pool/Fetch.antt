-- ===== src/Pool/Fetch.antt =====
-- `download` and `fetch_expected_sha256` of crates/ucrs-decoder/src/symbols.rs.
use ucrashreport_server.Base.{
  List, Option, [], if◌then◌else◌, length, ltb, none, some, ℕ, ◌*◌, ◌++◌, ◌∷◌,
}
use ucrashreport_server.Base.Results.{Result, err, ok}
use ucrashreport_server.Pool.Libs.{
  Chunks, PoolError, PoolLibs, PoolStep, Response, broken_body, chunk, invalid_url, io_error,
  network_error, no_chunk, no_sums_entry, tarball_too_large,
}
use ucrashreport_server.Pool.Paths.{Files, file_len, read_file}
use ucrashreport_server.Text.{
  Text, codes, lines, rsplit_once, split_once, strip_prefix, text_eq, trim, trim_start_matches,
}
use ucrashreport_server.Usign.{Bytes}

unfoldable pub max_tarball_size : ℕ
max_tarball_size = 2 * 1024 * 1024 * 1024

-- The loop over the chunks of a body.
unfoldable pub read_chunks : ℕ → Bytes → Chunks → Result PoolError Bytes
read_chunks cap bytes no_chunk = ok bytes
read_chunks cap bytes broken_body = err network_error
read_chunks cap bytes (chunk c rest) =
    let more : Bytes = bytes ++ c in
    let tail = read_chunks cap more rest in
    if ltb cap (length more) then err tarball_too_large else tail

unfoldable pub content_length_of : Response → ℕ
content_length_of r = elim r.content_length [ none ↦ 0 | some n ↦ n ]

-- `download` of a response
unfoldable pub read_response : Option Response → Result PoolError Bytes
unfolding read_chunks content_length_of
read_response none = err network_error
read_response (some r) =
    if ltb max_tarball_size (content_length_of r)
    then err tarball_too_large
    else read_chunks max_tarball_size [] r.body

-- `download` of a file, by the length in its metadata and then its bytes
unfoldable pub read_local : Option ℕ → Option Bytes → Result PoolError Bytes
read_local none bytes = err io_error
read_local (some len) none = err (if ltb max_tarball_size len then tarball_too_large else io_error)
read_local (some len) (some bytes) =
    if ltb max_tarball_size len then err tarball_too_large else ok bytes

-- The entry of a file name: "<sha256> *<filename>".
unfoldable pub sums_line : Text → Option (Text × Text) → Option Text
sums_line file none = none
sums_line file (some (sha, name)) =
    if text_eq (trim_start_matches (codes "*") name) file then some sha else none

unfoldable pub find_sum : Text → List Text → Option Text
unfolding sums_line
find_sum file [] = none
find_sum file (line ∷ rest) = elim (sums_line file (split_once line (codes " "))) [
  | some sha ↦ some sha
  | none ↦ find_sum file rest
]

module _ (libs : PoolLibs) where
  abbrev pub download_from : Option Text → Text → Files → Result PoolError Bytes
  download_from (some path) url files = read_local (file_len path files) (read_file path files)
  download_from none url files = read_response (libs.http_get url)

  unfoldable pub download : Text → PoolStep Bytes
  unfolding read_local read_response file_len
  download url files = (download_from (strip_prefix url (codes "file://")) url files, files)

  unfoldable pub sum_of : Text → Option Text → Result PoolError Text
  unfolding find_sum
  sum_of file none = err network_error
  sum_of file (some sums) = elim (find_sum file (lines sums)) [
    | none ↦ err no_sums_entry
    | some sha ↦ ok (libs.to_lowercase (trim sha))
  ]

  unfoldable pub sums_of : Option (Text × Text) → Result PoolError Text
  unfolding sum_of
  sums_of none = err invalid_url
  sums_of (some (base, file)) = sum_of file (libs.http_text (base ++ codes "/sha256sums"))

  unfoldable pub fetch_expected_sha256 : Text → Result PoolError Text
  unfolding sums_of
  fetch_expected_sha256 url = sums_of (rsplit_once url (codes "/"))
