-- ===== src/Server/LoginTests.antt =====
-- Runs of the device login of crates/ucrs-server/src/api.rs, with a witness for each theorem.
use ucrashreport_server.Accounts.{device_from_bearer, insert_token, token_hash_of}
use ucrashreport_server.Base.{
  [], arith, if◌then◌else◌, ltb, none, refl, some, ℕ, ◌++◌, ◌+◌, ◌-◌, ◌<◌, ◌∷◌, ◌≡◌,
}
use ucrashreport_server.Base.Results.{err, ok}
use ucrashreport_server.Server.Challenges.{device_challenge-login}
use ucrashreport_server.Server.Crates.{Libs}
use ucrashreport_server.Server.Devices.{IsRegistered, with_devices}
use ucrashreport_server.Server.Ingest.{new_device}
use ucrashreport_server.Server.Login.{
  Challenge, Session, answer_challenge, device_challenge, device_login, grant_token, is_fresh,
  new_token, nonce_ttl, pending_nonce, store_token, token_ttl_secs,
}
use ucrashreport_server.Server.Monad.{World, unauthorized}
use ucrashreport_server.Server.Nonces.{device_login-single_use}
use ucrashreport_server.Server.Samples.{
  draws1, empty_world, known_world, sample_crypto, sample_key, samples, zeros,
}
use ucrashreport_server.Server.Sessions.{device_login-bearer}
use ucrashreport_server.Text.{Text, codes, get_entry, text_runs}
use ucrashreport_server.Usign.{
  Bytes, PublicKey, check_blob, from_base64, key_of_blob, pkalg, verify,
}

unfoldable login_runs : Unit {0}
unfolding device_challenge device_login answer_challenge pending_nonce is_fresh grant_token
    insert_token store_token token_hash_of from_base64 key_of_blob verify check_blob text_runs
login_runs = tt

abbrev challenged_world : World
challenged_world = record known_world { nonces = (codes "k", (1 ∷ 2 ∷ [], 7)) ∷ [] }

abbrev granted_world : World
granted_world = record known_world {
  db = record known_world.db { device_tokens = new_token samples (codes "t") 50 (codes "d") ∷ [] };
}

abbrev challenge_answer : Challenge
challenge_answer = record { nonce = 1 ∷ 2 ∷ []; expires_in = 60 }

abbrev session_answer : Session
session_answer = record { token = codes "t"; expires_in = 3600 }

challenge_runs :
    device_challenge samples (1 ∷ []) (2 ∷ []) 7 (codes "k") known_world
    ≡ (ok challenge_answer, challenged_world)
unfolding login_runs
challenge_runs = refl

in_time :
    device_login samples 8 (codes "t") 50 (codes "k") (codes "s") challenged_world
    ≡ (ok session_answer, granted_world)
unfolding login_runs
in_time = refl

too_late :
    (device_login samples 60000000007 (codes "t") 50 (codes "k") (codes "s") challenged_world).0
    ≡ err (unauthorized (codes "no valid challenge"))
unfolding login_runs
too_late = refl

sample_key_is : from_base64 sample_crypto (codes "k") ≡ ok sample_key
unfolding login_runs
sample_key_is = refl

device_login-single_use_example :
    (device_login samples 9
      (codes "z")
      51
      (codes "k")
      (codes "s")
      (device_login samples 8 (codes "t") 50 (codes "k") (codes "s") challenged_world).1).0
    ≡ err (unauthorized (codes "no valid challenge"))
device_login-single_use_example =
    device_login-single_use samples 8 9 (codes "t") (codes "z") 50 51 (codes "k") (codes "s")
      (codes "s") challenged_world sample_key sample_key_is

device_login-bearer_example :
    (key : PublicKey (Unit {0})) × (nonce : Bytes) × (t : ℕ) × (device : Text) × (from_base64
        sample_crypto
        (codes "k")
      ≡ ok key)
    × (get_entry (codes "k") challenged_world.nonces ≡ some (nonce, t))
    × (8 - t < nonce_ttl)
    × (verify sample_crypto key (codes "s") nonce ≡ ok tt)
    × IsRegistered known_world.db.devices (codes "k") device
    × (device_from_bearer samples.secrets 3000 granted_world.db
          (some (codes "Bearer " ++ codes "t"))
        ≡ (if ltb 3000 (50 + token_ttl_secs) then some device else none))
device_login-bearer_example =
    device_login-bearer samples 8 (codes "t") 50 3000 (codes "k") (codes "s") challenged_world
      granted_world session_answer in_time

-- Bytes are their own base64, so that the nonce can be read from the answer.
abbrev readable : Libs (Unit {0})
readable = record samples { crypto = record sample_crypto { b64_decode = λ t. some t } }

abbrev key_blob : Text
key_blob = pkalg ++ zeros 40

abbrev signature_blob : Text
signature_blob = pkalg ++ zeros 72

abbrev readable_world : World
readable_world = with_devices empty_world (new_device draws1 key_blob ∷ [])

readable_challenge :
    device_challenge readable (1 ∷ []) (2 ∷ []) 7 key_blob readable_world
    ≡ (ok challenge_answer, record readable_world { nonces = (key_blob, (1 ∷ 2 ∷ [], 7)) ∷ [] })
unfolding login_runs
readable_challenge = refl

readable_key : from_base64 readable.crypto key_blob ≡ ok sample_key
unfolding login_runs
readable_key = refl

readable_signature : verify readable.crypto sample_key signature_blob (1 ∷ 2 ∷ []) ≡ ok tt
unfolding login_runs
readable_signature = refl

device_challenge-login_example :
    (w : World) × (device_login readable 8
        (codes "t")
        50
        key_blob
        signature_blob
        (record readable_world { nonces = (key_blob, (1 ∷ 2 ∷ [], 7)) ∷ [] })
      ≡ (ok session_answer, w))
device_challenge-login_example =
    device_challenge-login readable (1 ∷ []) (2 ∷ []) 7 8 (codes "t") 50 key_blob signature_blob
      readable_world (record readable_world { nonces = (key_blob, (1 ∷ 2 ∷ [], 7)) ∷ [] })
      challenge_answer sample_key (1 ∷ 2 ∷ []) (λ b. refl) readable_challenge readable_key refl
      readable_signature (omega arith) refl
