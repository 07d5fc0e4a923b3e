-- ===== src/Server/Login.antt =====
-- The device login of crates/ucrs-server/src/api.rs. The times of `Instant` are nanoseconds of the
-- monotonic clock, and those of `now()` are seconds.
use ucrashreport_server.Accounts.{Failure, device_from_bearer, insert_token, token_hash_of}
use ucrashreport_server.Base.{
  Bool, List, Option, if◌then◌else◌, keep, ltb, none, some, ℕ, ◌*◌, ◌++◌, ◌+◌, ◌-◌, ◌/◌,
}
use ucrashreport_server.Base.Results.{Result, err, ok}
use ucrashreport_server.Server.Crates.{Libs}
use ucrashreport_server.Server.Monad.{
  ApiError, Handler, bad, gets, internal_error, lift, modify, not_found, pure, require, require_ok,
  unauthorized, ◌>>=◌, ◌>>◌,
}
use ucrashreport_server.Store.{Token, select_row}
use ucrashreport_server.Text.{Text, codes, get_entry, remove_entry, set_entry, text_eq}
use ucrashreport_server.Usign.{Bytes, PublicKey, from_base64, verify}

abbrev pub nonce_ttl : ℕ
nonce_ttl = 60 * 1000000000

abbrev pub token_ttl_secs : ℕ
token_ttl_secs = 3600

-- `t.elapsed() < NONCE_TTL`, where `elapsed` is 0 for a time in the future.
unfoldable pub is_fresh : ℕ → ℕ → Bool
is_fresh now t = ltb (now - t) nonce_ttl

pub record Challenge : Type 0 where
  pub nonce : Text
  pub expires_in : ℕ

pub record Session : Type 0 where
  pub token : Text
  pub expires_in : ℕ

-- The nonce that `nonces.remove` gave, if it is fresh.
unfoldable pub pending_nonce : ℕ → Option (Bytes × ℕ) → Result ApiError Bytes
unfolding is_fresh
pending_nonce now none = err (unauthorized (codes "no valid challenge"))
pending_nonce now (some (nonce, t)) =
    if is_fresh now t then ok nonce else err (unauthorized (codes "no valid challenge"))

-- The insert into `device_token`, on the state.
unfoldable pub store_token : Result Failure (List Token) → Handler (Unit {0})
store_token (err e) w = (err internal_error, w)
store_token (ok tokens) w = (ok tt, record w { db = record w.db { device_tokens = tokens } })

module _ {Key : Type 0} (libs : Libs Key) where
  -- `device_challenge`, with the bytes of the two random ids and the time.
  unfoldable pub device_challenge : Bytes → Bytes → ℕ → Text → Handler Challenge
  unfolding is_fresh
  device_challenge id1 id2 now pubkey = do
    key ← require_ok (from_base64 libs.crypto pubkey) (bad (codes "invalid pubkey"))
    devices ← gets (λ w. w.db.devices)
    known ←
        require (select_row (λ d. text_eq d.pubkey pubkey) devices)
          (not_found (codes "unknown device"))
    let nonce : Bytes = id1 ++ id2
    modify (λ w. record w {
      nonces = set_entry pubkey (nonce, now) (keep (λ (_, (_, t)). is_fresh now t) w.nonces);
    })
    pure (record { nonce = libs.b64_encode nonce; expires_in = nonce_ttl / 1000000000 })

  abbrev pub new_token : Text → ℕ → Text → Token
  new_token secret now device = record {
    token_hash = token_hash_of libs.secrets secret;
    owner = device;
    expires = now + token_ttl_secs;
  }

  -- `device_login` from the query of the device on.
  unfoldable pub grant_token : Text → ℕ → Text → Handler Session
  unfolding insert_token store_token
  grant_token secret now pubkey = do
    devices ← gets (λ w. w.db.devices)
    device ←
        require (select_row (λ d. text_eq d.pubkey pubkey) devices)
          (not_found (codes "unknown device"))
    tokens ← gets (λ w. w.db.device_tokens)
    store_token (insert_token (new_token secret now device.id) tokens)
    pure (record { token = secret; expires_in = token_ttl_secs })

  -- `device_login` with the entry that `nonces.remove` gave.
  unfoldable pub answer_challenge :
      ℕ → Text → ℕ → Text → Text → PublicKey Key → Option (Bytes × ℕ) → Handler Session
  unfolding pending_nonce grant_token
  answer_challenge instant secret now pubkey signature key removed = do
    nonce ← lift (pending_nonce instant removed)
    _ ←
        require_ok (verify libs.crypto key signature nonce)
          (unauthorized (codes "signature verification failed"))
    grant_token secret now pubkey

  -- `device_login`, with the time of the check, the new secret and the time of the insert.
  unfoldable pub device_login : ℕ → Text → ℕ → Text → Text → Handler Session
  unfolding answer_challenge
  device_login instant secret now pubkey signature = do
    key ← require_ok (from_base64 libs.crypto pubkey) (bad (codes "invalid pubkey"))
    removed ← gets (λ w. get_entry pubkey w.nonces)
    modify (λ w. record w { nonces = remove_entry pubkey w.nonces })
    answer_challenge instant secret now pubkey signature key removed

  unfoldable pub require_device : ℕ → Option Text → Handler Text
  require_device now header = do
    db ← gets (λ w. w.db)
    require (device_from_bearer libs.secrets now db header)
        (unauthorized (codes "missing or invalid token"))
