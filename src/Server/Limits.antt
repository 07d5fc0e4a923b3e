-- ===== src/Server/Limits.antt =====
-- The sizes of what `parse_multipart` of crates/ucrs-server/src/api.rs reads.
use ucrashreport_server.Base.{
  Bool-cases, Option, Option-cases, arith, inl, inr, length, ltb, none, refl, some, subst, ◌≡◌, ◌≤◌,
}
use ucrashreport_server.Base.Results.{Result, Result-cases, err, ok}
use ucrashreport_server.Server.Crates.{FieldStream, Headers, Libs, broken_body, end_of_body, field}
use ucrashreport_server.Server.Ingest.{
  after_step, field_step, fields_loop, lift_json, parse_fields, parse_multipart, take_metadata,
  take_payload,
}
use ucrashreport_server.Server.Monad.{ApiError, World}
use ucrashreport_server.Text.{Text, byte_len, codes, get_entry, text_eq}
use ucrashreport_server.Types.{ReportMetadata, max_metadata_size, max_payload_size}
use ucrashreport_server.Usign.{Bytes}

abbrev pub FitsMetadata : Option Text → Type 0
FitsMetadata none = Unit
FitsMetadata (some t) = byte_len t ≤ max_metadata_size

abbrev pub FitsPayload : Option Bytes → Type 0
FitsPayload none = Unit
FitsPayload (some b) = length b ≤ max_payload_size

take_metadata-Fits : (o : Option Text) (t : Text) → take_metadata o ≡ ok t → FitsMetadata (some t)
unfolding take_metadata
take_metadata-Fits none t h = cc
take_metadata-Fits (some s) t h = elim (Bool-cases (ltb max_metadata_size (byte_len s))) [
  | inl e ↦ cc (rw e at h)
  | inr e ↦
      let same : s ≡ t = ground (arith, rw e at h) in
      subst (λ u. byte_len u ≤ 4096) same (ground arith)
]

take_payload-Fits : (o : Option Bytes) (b : Bytes) → take_payload o ≡ ok b → FitsPayload (some b)
unfolding take_payload
take_payload-Fits none b h = cc
take_payload-Fits (some c) b h = elim (Bool-cases (ltb max_payload_size (length c))) [
  | inl e ↦ cc (rw e at h)
  | inr e ↦
      let same : c ≡ b = ground (arith, rw e at h) in
      subst (λ u. length u ≤ 262144) same (ground arith)
]

abbrev pub Fits : Option Text × Option Bytes → Type 0
Fits (metadata, payload) = FitsMetadata metadata × FitsPayload payload

after_step-succeeds {ℓ κ} :
    {A : Type ℓ} {B : Type κ} (r : Result ApiError A) (f : A → Result ApiError B) (b : B)
    → after_step r f ≡ ok b
    → (a : A) × (r ≡ ok a) × (f a ≡ ok b)
after_step-succeeds (ok a) f b h = (a, refl, h)
after_step-succeeds (err e) f b h = cc

field_step-Fits :
    (name text : Option Text) (data_bytes : Option Bytes) (acc acc' : Option Text × Option Bytes)
    → Fits acc
    → field_step name text data_bytes acc ≡ ok acc'
    → Fits acc'
unfolding field_step
field_step-Fits none text data_bytes acc acc' fits h = subst Fits (ground arith) fits
field_step-Fits (some name) text data_bytes (m, p) acc' (fm, fp) h =
    elim (Bool-cases (text_eq name (codes "metadata"))) [
      | inl e ↦
          let (t, took, is) = after_step-succeeds (take_metadata text) _ acc' (rw e at h) in
          subst Fits {x = (some t, p)} (ground arith) (take_metadata-Fits text t took, fp)
      | inr e ↦
          let h' = rw e at h in
          elim (Bool-cases (text_eq name (codes "payload"))) [
            | inl f ↦
                let (b, took, is) =
                  after_step-succeeds (take_payload data_bytes) _ acc' (rw f at h') in
                subst Fits {x = (m, some b)} (ground arith)
                  (fm, take_payload-Fits data_bytes b took)
            | inr f ↦ subst Fits (ground (arith, rw f at h')) (fm, fp)
          ]
    ]

pub fields_loop-Fits :
    (fields : FieldStream) (acc acc' : Option Text × Option Bytes)
    → Fits acc
    → fields_loop fields acc ≡ ok acc'
    → Fits acc'
unfolding fields_loop
fields_loop-Fits end_of_body acc acc' fits h = subst Fits (ground arith) fits
fields_loop-Fits broken_body acc acc' fits h = cc
fields_loop-Fits (field name text data_bytes rest) acc acc' fits h =
    let (next, stepped, h') = after_step-succeeds (field_step name text data_bytes acc) _ acc' h in
    fields_loop-Fits rest next acc' (field_step-Fits name text data_bytes acc next fits stepped) h'

module _ {Key : Type 0} (libs : Libs Key) where
  parse_fields-succeeds :
      (fields : Option Text × Option Bytes) (w w' : World) (meta : ReportMetadata) (payload : Bytes)
      → Fits fields
      → parse_fields libs fields w ≡ (ok (meta, payload), w')
      → length payload ≤ max_payload_size
  unfolding parse_fields lift_json
  parse_fields-succeeds (none, p) w w' meta payload fits h = cc
  parse_fields-succeeds (some t, none) w w' meta payload fits h = cc
  parse_fields-succeeds (some t, some b) w w' meta payload (_, fits) h =
      elim (Result-cases (libs.parse_metadata t)) [
        | inl (m, e) ↦
            let same : b ≡ payload = ground (arith, rw e at h) in
            subst (λ c. length c ≤ 262144) same fits
        | inr (x, e) ↦ cc (rw e at h)
      ]

  pub parse_multipart-succeeds :
      (headers : Headers) (body : Bytes) (w w' : World) (meta : ReportMetadata) (payload : Bytes)
      → parse_multipart libs headers body w ≡ (ok (meta, payload), w')
      → length payload ≤ max_payload_size
  unfolding parse_multipart
  parse_multipart-succeeds headers body w w' meta payload h =
      elim (Option-cases (get_entry (codes "content-type") headers)) [
        | inl e ↦ cc (rw e at h)
        | inr (ct, e1) ↦
            let h1 = rw e1 at h in
            elim (Option-cases (libs.parse_boundary ct)) [
              | inl e ↦ cc (rw e at h1)
              | inr (boundary, e2) ↦
                  let h2 = rw e2 at h1 in
                  elim (Result-cases (fields_loop (libs.multipart boundary body) (none, none))) [
                    | inr (e, e3) ↦ cc (rw e3 at h2)
                    | inl (acc, e3) ↦
                        parse_fields-succeeds acc w w' meta payload
                          (fields_loop-Fits (libs.multipart boundary body) (none, none) acc (tt, tt)
                            e3)
                          (rw e3 at h2)
                  ]
            ]
      ]
