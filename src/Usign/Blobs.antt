-- ===== src/Usign/Blobs.antt =====
-- Which blobs crates/ucrs-common/src/usign.rs accepts, as the wire format that its header states.
use ucrashreport_server.Base.{
  Option-cases, ap, ap₂, arith, drop, drop-drop, drop-length, inl, inr, length, length-append,
  length-drop, length-take, refl, some, some-eq, subst, sym, take, take-append-drop, take-length,
  take_all, true, ℕ, ◌++◌, ◌+◌, ◌↔◌, ◌∙◌, ◌≡◌,
}
use ucrashreport_server.Base.Results.{ok}
use ucrashreport_server.Text.{Text, text_eq_iff, trim}
use ucrashreport_server.Usign.Defs.{
  Bytes, Crypto, PublicKey, check_blob, from_base64, key_of_blob, pkalg, pubkey_len, sig_len,
  verify,
}

-- A blob is the algorithm, eight bytes of key number, and the rest.
split_blob :
    (raw : Bytes) (n : ℕ)
    → length raw ≡ 10 + n
    → raw ≡ take 2 raw ++ (take 8 (drop 2 raw) ++ take n (drop 10 raw))
split_blob raw n h =
    sym (take-append-drop 2 raw)
    ∙ ap (◌++◌ (take 2 raw)) (
        sym (take-append-drop 8 (drop 2 raw))
        ∙ ap (◌++◌ (take 8 (drop 2 raw))) (
            drop-drop 2 8 raw ∙ sym (take_all n (drop 10 raw) (omega (arith, length-drop 10 raw)))))

record BlobParts (raw kn rest : Bytes) (n : ℕ) : Type 0 where
  total : length raw ≡ 10 + n
  alg : take 2 raw ≡ pkalg
  num : take 8 (drop 2 raw) ≡ kn
  body : take n (drop 10 raw) ≡ rest

blob-BlobParts :
    (kn rest : Bytes) (n : ℕ)
    → length kn ≡ 8
    → length rest ≡ n
    → BlobParts (pkalg ++ (kn ++ rest)) kn rest n
blob-BlobParts kn rest n hk hr = record {
  total = omega (arith, length-append kn rest, hk, hr);
  alg = refl;
  num = subst (λ m. take m (kn ++ rest) ≡ kn) hk (take-length kn rest);
  body =
      ap (take n) (subst (λ m. drop m (kn ++ rest) ≡ rest) hk (drop-length kn rest))
      ∙ take_all n rest hr;
}

module _ {Key : Type 0} (crypto : Crypto Key) where
  -- The bytes of a key blob: "Ed", the key number and a key that the library takes.
  pub record IsKeyBlob (raw : Bytes) (k : PublicKey Key) : Type 0 where
    pub key_bytes : Bytes
    pub layout : raw ≡ pkalg ++ (k.keynum ++ key_bytes)
    pub keynum_length : length k.keynum ≡ 8
    pub key_length : length key_bytes ≡ 32
    pub is_key : crypto.key_from_bytes key_bytes ≡ some k.key

  key_of_blob-inverse :
      (raw : Bytes) (k : PublicKey Key)
      → key_of_blob crypto raw ≡ ok k
      → (length raw ≡ pubkey_len)
        × (take 2 raw ≡ pkalg)
        × (take 8 (drop 2 raw) ≡ k.keynum)
        × (crypto.key_from_bytes (take 32 (drop 10 raw)) ≡ some k.key)
  unfolding key_of_blob
  key_of_blob-inverse raw k h =
      elim (Option-cases (crypto.key_from_bytes (take 32 (drop 10 raw)))) [
        | inl e ↦ ground (arith, text_eq_iff (take 2 raw) pkalg)
        | inr (key, e) ↦ ground (arith, text_eq_iff (take 2 raw) pkalg)
      ]

  key_of_blob-IsKeyBlob :
      (raw : Bytes) (k : PublicKey Key) → key_of_blob crypto raw ≡ ok k → IsKeyBlob raw k
  key_of_blob-IsKeyBlob raw k h =
      let (len, alg, num, key) = key_of_blob-inverse raw k h in
      record {
        key_bytes = take 32 (drop 10 raw);
        layout = split_blob raw 32 len ∙ ap₂ (λ a b. a ++ (b ++ take 32 (drop 10 raw))) alg num;
        keynum_length =
            ap length (sym num) ∙ omega (arith, length-take 8 (drop 2 raw), length-drop 2 raw, len);
        key_length = omega (arith, length-take 32 (drop 10 raw), length-drop 10 raw, len);
        is_key = key;
      }

  IsKeyBlob-key_of_blob :
      (raw : Bytes) (k : PublicKey Key) → IsKeyBlob raw k → key_of_blob crypto raw ≡ ok k
  unfolding key_of_blob
  IsKeyBlob-key_of_blob raw k b =
      let p : BlobParts raw k.keynum b.key_bytes 32 =
        rw b.layout (blob-BlobParts k.keynum b.key_bytes 32 b.keynum_length b.key_length) in
      ground (
        arith,
        text_eq_iff (take 2 raw) pkalg,
        p.total,
        p.alg,
        p.num,
        p.body,
        b.is_key,
        ap crypto.key_from_bytes p.body,
      )

  -- A key is read exactly from the blobs of the wire format.
  pub from_base64-eq-ok :
      (blob : Text) (k : PublicKey Key)
      → (from_base64 crypto blob ≡ ok k)
        ↔ ((raw : Bytes) × (crypto.b64_decode (trim blob) ≡ some raw) × IsKeyBlob raw k)
  unfolding from_base64
  from_base64-eq-ok blob k = elim (Option-cases (crypto.b64_decode (trim blob))) [
    | inl e ↦ rw e ((λ h. cc), (λ (raw, d, b). cc))
    | inr (raw, e) ↦ rw e (
      (λ h. (raw, refl, key_of_blob-IsKeyBlob raw k h)),
      (λ (raw', d, b). rw (some-eq raw raw' d) (IsKeyBlob-key_of_blob raw' k b)),
    )
  ]

  -- The bytes of a signature blob of the key `k` over `msg`: "Ed", the key's number and a signature
  -- that the library accepts.
  pub record IsSigBlob (raw : Bytes) (k : PublicKey Key) (msg : Bytes) : Type 0 where
    pub sig_bytes : Bytes
    pub layout : raw ≡ pkalg ++ (k.keynum ++ sig_bytes)
    pub keynum_length : length k.keynum ≡ 8
    pub sig_length : length sig_bytes ≡ 64
    pub is_signed : crypto.verify_strict k.key msg sig_bytes ≡ true

  check_blob-inverse :
      (k : PublicKey Key) (raw msg : Bytes)
      → check_blob crypto k raw msg ≡ ok tt
      → (length raw ≡ sig_len)
        × (take 2 raw ≡ pkalg)
        × (take 8 (drop 2 raw) ≡ k.keynum)
        × (crypto.verify_strict k.key msg (take 64 (drop 10 raw)) ≡ true)
  unfolding check_blob
  check_blob-inverse k raw msg h =
      ground (arith, text_eq_iff (take 2 raw) pkalg, text_eq_iff (take 8 (drop 2 raw)) k.keynum)

  check_blob-IsSigBlob :
      (k : PublicKey Key) (raw msg : Bytes)
      → check_blob crypto k raw msg ≡ ok tt
      → IsSigBlob raw k msg
  check_blob-IsSigBlob k raw msg h =
      let (len, alg, num, signed) = check_blob-inverse k raw msg h in
      record {
        sig_bytes = take 64 (drop 10 raw);
        layout = split_blob raw 64 len ∙ ap₂ (λ a b. a ++ (b ++ take 64 (drop 10 raw))) alg num;
        keynum_length =
            ap length (sym num) ∙ omega (arith, length-take 8 (drop 2 raw), length-drop 2 raw, len);
        sig_length = omega (arith, length-take 64 (drop 10 raw), length-drop 10 raw, len);
        is_signed = signed;
      }

  IsSigBlob-check_blob :
      (k : PublicKey Key) (raw msg : Bytes)
      → IsSigBlob raw k msg
      → check_blob crypto k raw msg ≡ ok tt
  unfolding check_blob
  IsSigBlob-check_blob k raw msg b =
      let p : BlobParts raw k.keynum b.sig_bytes 64 =
        rw b.layout (blob-BlobParts k.keynum b.sig_bytes 64 b.keynum_length b.sig_length) in
      ground (
        arith,
        text_eq_iff (take 2 raw) pkalg,
        text_eq_iff (take 8 (drop 2 raw)) k.keynum,
        p.total,
        p.alg,
        p.num,
        b.is_signed,
        ap (crypto.verify_strict k.key msg) p.body,
      )

  -- A signature is accepted exactly if its blob has the wire format, carries the key's number, and
  -- the library accepts its 64 bytes for the key and the message.
  pub verify-eq-ok :
      (k : PublicKey Key) (sig_blob : Text) (msg : Bytes)
      → (verify crypto k sig_blob msg ≡ ok tt)
        ↔ ((raw : Bytes) × (crypto.b64_decode (trim sig_blob) ≡ some raw) × IsSigBlob raw k msg)
  unfolding verify
  verify-eq-ok k sig_blob msg = elim (Option-cases (crypto.b64_decode (trim sig_blob))) [
    | inl e ↦ rw e ((λ h. cc), (λ (raw, d, b). cc))
    | inr (raw, e) ↦ rw e (
      (λ h. (raw, refl, check_blob-IsSigBlob k raw msg h)),
      (λ (raw', d, b). rw (some-eq raw raw' d) (IsSigBlob-check_blob k raw' msg b)),
    )
  ]
