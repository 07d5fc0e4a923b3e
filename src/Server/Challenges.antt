-- ===== src/Server/Challenges.antt =====
-- From a challenge to a login, crates/ucrs-server/src/api.rs.
use ucrashreport_server.Accounts.{insert_token, token_hash_of}
use ucrashreport_server.Base.{
  Option-cases, [], any, ap, arith, false, inl, inr, keep, refl, some, sym, ℕ, ◌++◌, ◌-◌, ◌/◌, ◌<◌,
  ◌∙◌, ◌∷◌, ◌≡◌,
}
use ucrashreport_server.Base.Results.{Result-cases, ok}
use ucrashreport_server.Server.Crates.{Libs}
use ucrashreport_server.Server.Login.{
  Challenge, answer_challenge, device_challenge, device_login, grant_token, is_fresh, new_token,
  nonce_ttl, pending_nonce, store_token, token_ttl_secs,
}
use ucrashreport_server.Server.Monad.{World}
use ucrashreport_server.Store.{Device, select_row}
use ucrashreport_server.Text.{Text, get_entry-set, remove_entry, set_entry, text_eq}
use ucrashreport_server.Usign.{Bytes, PublicKey, from_base64, verify}

pending_nonce-young :
    (instant t : ℕ) (nonce : Bytes)
    → instant - t < nonce_ttl
    → pending_nonce instant (some (nonce, t)) ≡ ok nonce
unfolding pending_nonce is_fresh
pending_nonce-young instant t nonce young = ground arith

module _ {Key : Type 0} (libs : Libs Key) where
  -- The state after a challenge.
  abbrev challenged : Bytes → ℕ → Text → World → World
  challenged nonce t pubkey w = record w {
    nonces = set_entry pubkey (nonce, t) (keep (λ (_, (_, u)). is_fresh t u) w.nonces);
  }

  abbrev challenge_of : Bytes → Challenge
  challenge_of nonce = record { nonce = libs.b64_encode nonce; expires_in = nonce_ttl / 1000000000 }

  device_challenge-succeeds :
      (id1 id2 : Bytes) (t : ℕ) (pubkey : Text) (w w' : World) (c : Challenge)
      → device_challenge libs id1 id2 t pubkey w ≡ (ok c, w')
      → (d : Device) × (select_row (λ e. text_eq e.pubkey pubkey) w.db.devices ≡ some d)
        × (w' ≡ challenged (id1 ++ id2) t pubkey w)
        × (c ≡ challenge_of (id1 ++ id2))
  unfolding device_challenge
  device_challenge-succeeds id1 id2 t pubkey w w' c h =
      elim (Result-cases (from_base64 libs.crypto pubkey)) [
        | inr (_, e) ↦ cc (rw (device_challenge, e) at h)
        | inl (key, e1) ↦
            let h1 = rw (device_challenge, e1) at h in
            elim (Option-cases (select_row (λ d. text_eq d.pubkey pubkey) w.db.devices)) [
              | inl e ↦ cc (rw e at h1)
              | inr (d, e2) ↦
                  (d, e2, ap (λ p. p.1) (sym (rw e2 at h1)), cc (ap (λ p. p.0) (rw e2 at h1)))
            ]
      ]

  grant_token-runs :
      (secret : Text) (now : ℕ) (pubkey : Text) (w : World) (d : Device)
      → select_row (λ e. text_eq e.pubkey pubkey) w.db.devices ≡ some d
      → any (λ u. text_eq u.token_hash (token_hash_of libs.secrets secret)) w.db.device_tokens
        ≡ false
      → (w' : World) × (grant_token libs secret now pubkey w
          ≡ (ok (record { token = secret; expires_in = token_ttl_secs }), w'))
  unfolding grant_token insert_token store_token
  grant_token-runs secret now pubkey w d e f = (
    record w {
      db = record w.db {
        device_tokens = w.db.device_tokens ++ new_token libs secret now d.id ∷ [];
      };
    },
    rw (grant_token, e, f) refl,
  )

  -- A device that signs the nonce that it read from the answer of a challenge, and sends the
  -- signature right after it and in time, gets the token, if no stored token has the same hash.
  -- Base64 is only taken to decode to what was encoded.
  pub device_challenge-login :
      (id1 id2 : Bytes) (t instant : ℕ) (secret : Text) (now : ℕ) (pubkey signature : Text)
      (w w1 : World) (c : Challenge) (key : PublicKey Key) (nonce : Bytes)
      → ((b : Bytes) → libs.crypto.b64_decode (libs.b64_encode b) ≡ some b)
      → device_challenge libs id1 id2 t pubkey w ≡ (ok c, w1)
      → from_base64 libs.crypto pubkey ≡ ok key
      → libs.crypto.b64_decode c.nonce ≡ some nonce
      → verify libs.crypto key signature nonce ≡ ok tt
      → instant - t < nonce_ttl
      → any (λ u. text_eq u.token_hash (token_hash_of libs.secrets secret)) w.db.device_tokens
        ≡ false
      → (w2 : World) × (device_login libs instant secret now pubkey signature w1
          ≡ (ok (record { token = secret; expires_in = token_ttl_secs }), w2))
  unfolding device_login answer_challenge
  device_challenge-login id1 id2 t instant secret now pubkey signature w w1 c key nonce b64 h e1
        read e2 young free =
      let (d, known, after, sent) = device_challenge-succeeds id1 id2 t pubkey w w1 c h in
      let same : nonce ≡ id1 ++ id2 = cc (read, sent, b64 (id1 ++ id2)) in
      let good : verify libs.crypto key signature (id1 ++ id2) ≡ ok tt =
        ap (verify libs.crypto key signature) (sym same) ∙ e2 in
      let v : World = record (challenged (id1 ++ id2) t pubkey w) {
        nonces = remove_entry pubkey (challenged (id1 ++ id2) t pubkey w).nonces;
      } in
      let (w2, runs) = grant_token-runs secret now pubkey v d known free in
      (
        w2,
        ap (device_login libs instant secret now pubkey signature) after
            ∙ rw
                (
                  device_login,
                  e1,
                  get_entry-set pubkey (id1 ++ id2, t)
                      (keep (λ (_, (_, u)). is_fresh t u) w.nonces),
                  pending_nonce-young instant t (id1 ++ id2) young,
                  good,
                )
                runs,
      )
