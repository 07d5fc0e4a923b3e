-- ===== src/Usign/Defs.antt =====
-- `PublicKey::from_base64` and `PublicKey::verify` of crates/ucrs-common/src/usign.rs. The crates
-- `base64` and `ed25519-dalek` are the parameter `Crypto`.
use ucrashreport_server.Base.{
  Bool, List, Option, [], drop, false, length, not, take, true, ℕ, ◌+◌, ◌==◌, ◌∷◌,
}
use ucrashreport_server.Base.Results.{Result, err, ok, ok_or, ◌>>=◌, ◌>>◌}
use ucrashreport_server.Text.{Text, text_eq, trim}

abbrev pub Bytes : Type 0
Bytes = List ℕ

pub record Crypto (Key : Type 0) : Type 0 where
  -- `B64.decode`, `none` on an error
  pub b64_decode : Text → Option Bytes
  -- `VerifyingKey::from_bytes`, `none` on an error
  pub key_from_bytes : Bytes → Option Key
  -- `verify_strict(msg, sig).is_ok()`, with the key, the message and the signature's bytes
  pub verify_strict : Key → Bytes → Bytes → Bool

-- "Ed"
abbrev pub pkalg : Bytes
pkalg = b'E' ∷ b'd' ∷ []

abbrev pub pubkey_len : ℕ
pubkey_len = 2 + 8 + 32

abbrev pub sig_len : ℕ
sig_len = 2 + 8 + 64

pub data UsignError : Type 0 where
  base64 blob_length algorithm key_num invalid_key verification : UsignError

pub record PublicKey (Key : Type 0) : Type 0 where
  pub keynum : Bytes
  pub key : Key

-- An early `return Err(e)`.
abbrev pub fail_if {κ} : {E : Type κ} → Bool → E → Result E (Unit {0})
fail_if true e = err e
fail_if false e = ok tt

module _ {Key : Type 0} (crypto : Crypto Key) where
  -- The checks of `from_base64` on the decoded bytes.
  unfoldable pub key_of_blob : Bytes → Result UsignError (PublicKey Key)
  key_of_blob raw = do
    fail_if (not (length raw == pubkey_len)) blob_length
    fail_if (not (text_eq (take 2 raw) pkalg)) algorithm
    key ← ok_or (crypto.key_from_bytes (take 32 (drop 10 raw))) invalid_key
    ok (record { keynum = take 8 (drop 2 raw); key = key })

  unfoldable pub from_base64 : Text → Result UsignError (PublicKey Key)
  from_base64 blob = do raw ← ok_or (crypto.b64_decode (trim blob)) base64; key_of_blob raw

  -- The checks of `verify` on the decoded bytes.
  unfoldable pub check_blob : PublicKey Key → Bytes → Bytes → Result UsignError (Unit {0})
  check_blob self raw msg = do
    fail_if (not (length raw == sig_len)) blob_length
    fail_if (not (text_eq (take 2 raw) pkalg)) algorithm
    fail_if (not (text_eq (take 8 (drop 2 raw)) self.keynum)) key_num
    fail_if (not (crypto.verify_strict self.key msg (take 64 (drop 10 raw)))) verification

  unfoldable pub verify : PublicKey Key → Text → Bytes → Result UsignError (Unit {0})
  verify self sig_blob msg = do
    raw ← ok_or (crypto.b64_decode (trim sig_blob)) base64
    check_blob self raw msg
