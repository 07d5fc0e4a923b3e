-- ===== src/Usign/Tests.antt =====
-- A toy instance of the crates behind crates/ucrs-common/src/usign.rs, with a witness for each
-- theorem.
use ucrashreport_server.Base.{
  [], if◌then◌else◌, length, none, refl, some, suc, zero, ℕ, ◌++◌, ◌==◌, ◌↔◌, ◌∷◌, ◌≡◌,
}
use ucrashreport_server.Base.Results.{err, ok}
use ucrashreport_server.Text.{codes, text_eq, text_runs, trim}
use ucrashreport_server.Usign.Blobs.{IsKeyBlob, IsSigBlob, from_base64-eq-ok, verify-eq-ok}
use ucrashreport_server.Usign.Defs.{
  Bytes, Crypto, PublicKey, blob_length, check_blob, from_base64, key_of_blob, pkalg, verification,
  verify,
}

abbrev zeros : ℕ → Bytes
zeros zero = []
zeros (suc n) = 0 ∷ zeros n

-- The key number 1 to 8.
abbrev number : Bytes
number = 1 ∷ 2 ∷ 3 ∷ 4 ∷ 5 ∷ 6 ∷ 7 ∷ 8 ∷ []

-- "k" and "s" decode to a key blob and a signature blob; a signature is accepted for the message
-- "m".
abbrev toy : Crypto (Unit {0})
toy = record {
  b64_decode = λ t.
      if text_eq t (codes "k")
      then some (pkalg ++ (number ++ zeros 32))
      else if text_eq t (codes "s")
      then some (pkalg ++ (number ++ zeros 64))
      else none;
  key_from_bytes = λ b. if length b == 32 then some tt else none;
  verify_strict = λ key msg sig. text_eq msg (codes "m");
}

abbrev toy_key : PublicKey (Unit {0})
toy_key = record { keynum = number; key = tt }

roundtrip :
    (from_base64 toy (codes "k ") ≡ ok toy_key)
    × (from_base64 toy (codes "s") ≡ err blob_length)
    × (verify toy toy_key (codes "s") (codes "m") ≡ ok tt)
    × (verify toy toy_key (codes "s") (codes "n") ≡ err verification)
unfolding from_base64 verify key_of_blob check_blob text_runs
roundtrip = (refl, refl, refl, refl)

from_base64-eq-ok_example :
    (from_base64 toy (codes "k ") ≡ ok toy_key)
    ↔ ((raw : Bytes) × (toy.b64_decode (trim (codes "k ")) ≡ some raw) × IsKeyBlob toy raw toy_key)
from_base64-eq-ok_example = from_base64-eq-ok toy (codes "k ") toy_key

verify-eq-ok_example : (verify toy toy_key (codes "s") (codes "m") ≡ ok tt) ↔ (
    (raw : Bytes) × (toy.b64_decode (trim (codes "s")) ≡ some raw)
    × IsSigBlob toy raw toy_key (codes "m"))
verify-eq-ok_example = verify-eq-ok toy toy_key (codes "s") (codes "m")
