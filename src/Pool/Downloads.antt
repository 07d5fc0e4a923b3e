-- ===== src/Pool/Downloads.antt =====
-- The size of what crates/ucrs-decoder/src/symbols.rs downloads.
use ucrashreport_server.Base.{
  Bool-cases, Option, Option-cases, [], ap, arith, inl, inr, length, ltb, none, some, subst, sym, ℕ,
  ◌++◌, ◌≡◌, ◌≤◌,
}
use ucrashreport_server.Base.Results.{ok}
use ucrashreport_server.Pool.Fetch.{
  content_length_of, download, download_from, max_tarball_size, read_chunks, read_local,
  read_response,
}
use ucrashreport_server.Pool.Libs.{Chunks, PoolLibs, Response, broken_body, chunk, no_chunk}
use ucrashreport_server.Pool.Paths.{Files, file_len, read_file}
use ucrashreport_server.Text.{Text, codes, strip_prefix}
use ucrashreport_server.Usign.{Bytes}

read_chunks-le :
    (cap : ℕ) (chunks : Chunks) (bytes got : Bytes)
    → length bytes ≤ cap
    → read_chunks cap bytes chunks ≡ ok got
    → length got ≤ cap
unfolding read_chunks
read_chunks-le cap no_chunk bytes got h e =
    let same : bytes ≡ got = ground (arith, e) in subst (λ b. length b ≤ cap) same h
read_chunks-le cap broken_body bytes got h e = cc
read_chunks-le cap (chunk c rest) bytes got h e =
    elim (Bool-cases (ltb cap (length (bytes ++ c)))) [
      | inl t ↦ cc (rw t at e)
      | inr t ↦ read_chunks-le cap rest (bytes ++ c) got (ground (arith, t)) (rw t at e)
    ]

read_response-le :
    (r : Option Response) (got : Bytes) → read_response r ≡ ok got → length got ≤ max_tarball_size
unfolding read_response
read_response-le none got e = cc
read_response-le (some r) got e = elim (Bool-cases (ltb max_tarball_size (content_length_of r))) [
  | inl t ↦ cc (rw t at e)
  | inr t ↦ read_chunks-le max_tarball_size r.body [] got (omega arith) (rw t at e)
]

-- The file is as long as its metadata say.
read_local-le :
    (path : Text) (files : Files) (got : Bytes)
    → read_local (file_len path files) (read_file path files) ≡ ok got
    → length got ≤ max_tarball_size
unfolding read_local file_len
read_local-le path files got e = elim (Option-cases (read_file path files)) [
  | inl r ↦ cc (rw r at e)
  | inr (bytes, r) ↦
      let h = rw r at e in
      elim (Bool-cases (ltb max_tarball_size (length bytes))) [
        | inl t ↦ cc (rw t at h)
        | inr t ↦
            let same : bytes ≡ got = ground (arith, rw t at h) in
            subst (λ b. length b ≤ max_tarball_size) same (ground (arith, t))
      ]
]

-- A download gives at most as many bytes as the limit allows, whatever the length that the server
-- claims and however it cuts the body, and it leaves the files alone.
pub download-le :
    (libs : PoolLibs) (url : Text) (files files' : Files) (got : Bytes)
    → download libs url files ≡ (ok got, files')
    → (length got ≤ max_tarball_size) × (files' ≡ files)
unfolding download
download-le libs url files files' got e =
    (limited (strip_prefix url (codes "file://")) (ap (λ p. p.0) e), ap (λ p. p.1) (sym e))
  where
    limited :
        (o : Option Text) → download_from libs o url files ≡ ok got → length got ≤ max_tarball_size
    limited none h = read_response-le (libs.http_get url) got h
    limited (some path) h = read_local-le path files got h
