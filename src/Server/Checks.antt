-- ===== src/Server/Checks.antt =====
-- What `post_report` of crates/ucrs-server/src/api.rs has checked of a report that it takes.
use ucrashreport_server.Base.{
  Bool-cases, ap, arith, inl, inr, length, subst, sym, true, ◌==◌, ◌∙◌, ◌≡◌, ◌≤◌,
}
use ucrashreport_server.Base.Results.{ok}
use ucrashreport_server.Server.Admission.{read_report-IsReader}
use ucrashreport_server.Server.Crates.{Headers, Libs}
use ucrashreport_server.Server.Ingest.{parse_multipart}
use ucrashreport_server.Server.Limits.{parse_multipart-succeeds}
use ucrashreport_server.Server.Monad.{World}
use ucrashreport_server.Server.Post.{check_report, read_report}
use ucrashreport_server.Server.Runs.{bind-succeeds}
use ucrashreport_server.Text.{text_eq, text_eq_iff}
use ucrashreport_server.Types.{ReportMetadata, format_version, max_payload_size}
use ucrashreport_server.Usign.{Bytes}

module _ {Key : Type 0} (libs : Libs Key) where
  pub record IsRead (headers : Headers) (body : Bytes) (meta : ReportMetadata) (payload : Bytes)
      : Type 0 where
    pub current : meta.format ≡ format_version
    pub intact : libs.hex_sha256 payload ≡ libs.to_lowercase meta.payload_sha256
    pub named : libs.is_uuid meta.uuid ≡ true
    pub small : length payload ≤ max_payload_size
    pub sent : (w : World) → read_report libs headers body w ≡ (ok (meta, payload), w)

  check_report-succeeds :
      (meta meta' : ReportMetadata) (payload payload' : Bytes) (w w' : World)
      → check_report libs (meta, payload) w ≡ (ok (meta', payload'), w')
      → (meta ≡ meta')
        × (payload ≡ payload')
        × (meta.format ≡ format_version)
        × (libs.hex_sha256 payload ≡ libs.to_lowercase meta.payload_sha256)
        × (libs.is_uuid meta.uuid ≡ true)
  unfolding check_report
  check_report-succeeds meta meta' payload payload' w w' h =
      elim (Bool-cases (meta.format == format_version)) [
        | inr e ↦ cc (rw e at h)
        | inl e1 ↦
            let h1 = rw e1 at h in
            elim (Bool-cases
              (text_eq (libs.hex_sha256 payload) (libs.to_lowercase meta.payload_sha256))) [
                | inr e ↦ cc (rw e at h1)
                | inl e2 ↦
                    let h2 = rw e2 at h1 in
                    elim (Bool-cases (libs.is_uuid meta.uuid)) [
                      | inr e ↦ cc (rw e at h2)
                      | inl e3 ↦
                          let h3 = rw e3 at h2 in
                          (ground arith, ground arith, ground arith, (text_eq_iff _ _).0 e2, e3)
                    ]
              ]
      ]

  -- A reader that succeeds leaves the state as it is, and succeeds the same way in every state.
  reader-sent :
      (headers : Headers) (body : Bytes) (meta : ReportMetadata) (payload : Bytes) (w w' : World)
      → read_report libs headers body w ≡ (ok (meta, payload), w')
      → (w ≡ w') × ((v : World) → read_report libs headers body v ≡ (ok (meta, payload), v))
  reader-sent headers body meta payload w w' h =
      let (r, reads) = read_report-IsReader libs headers body in
      let same = sym (reads w) ∙ h in (ap (λ p. p.1) same, λ v. reads v ∙ ap (λ p. (p.0, v)) same)

  pub read_report-IsRead :
      (headers : Headers) (body : Bytes) (meta : ReportMetadata) (payload : Bytes) (w w' : World)
      → read_report libs headers body w ≡ (ok (meta, payload), w')
      → (w ≡ w') × IsRead headers body meta payload
  unfolding read_report
  read_report-IsRead headers body meta payload w w' h =
      let ((m, p), w1, h1, h2) =
        bind-succeeds (parse_multipart libs headers body) (check_report libs) (meta, payload) w w'
          h in
      let (same_meta, same_payload, current, intact, named) =
        check_report-succeeds m meta p payload w1 w' h2 in
      let (same, sent) = reader-sent headers body meta payload w w' h in
      (
        same,
        record {
          current = subst (λ x. x.format ≡ format_version) same_meta current;
          intact =
              ap libs.hex_sha256 (sym same_payload)
              ∙ intact
              ∙ ap (λ x. libs.to_lowercase x.payload_sha256) same_meta;
          named = subst (λ x. libs.is_uuid x.uuid ≡ true) same_meta named;
          small =
              subst (λ x. length x ≤ 262144) same_payload
                (parse_multipart-succeeds libs headers body w w1 m p h1);
          sent = sent;
        },
      )
