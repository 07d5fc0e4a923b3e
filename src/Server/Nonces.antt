-- ===== src/Server/Nonces.antt =====
-- The challenge of a device login, crates/ucrs-server/src/api.rs: a nonce is for one login, and only
-- for a time.
use ucrashreport_server.Accounts.{Failure, insert_token}
use ucrashreport_server.Base.{List, Option, Option-cases, ap, inl, inr, none, refl, ℕ, ◌∙◌, ◌≡◌}
use ucrashreport_server.Base.Results.{Result, err, ok}
use ucrashreport_server.Server.Crates.{Libs}
use ucrashreport_server.Server.Login.{
  answer_challenge, device_login, grant_token, new_token, pending_nonce, store_token,
  token_ttl_secs,
}
use ucrashreport_server.Server.Monad.{
  ApiError, Handler, World, lift, proceed, pure, require_ok, unauthorized, ◌>>=◌,
}
use ucrashreport_server.Server.Runs.{IsReader, lift-IsReader, require_ok-IsReader}
use ucrashreport_server.Store.{Token, select_row}
use ucrashreport_server.Text.{Text, codes, get_entry, get_entry-remove, text_eq}
use ucrashreport_server.Usign.{Bytes, PublicKey, from_base64, verify}

-- A handler that leaves the pending nonces alone.
KeepsNonces : {A : Type 0} → Handler A → Type 0
KeepsNonces m = (w : World) → (m w).1.nonces ≡ w.nonces

store_token-KeepsNonces : (r : Result Failure (List Token)) → KeepsNonces (store_token r)
unfolding store_token KeepsNonces
store_token-KeepsNonces (ok ts) w = refl
store_token-KeepsNonces (err e) w = refl

reader-nonces : {A : Type 0} (m : Handler A) → IsReader m → KeepsNonces m
unfolding KeepsNonces
reader-nonces m (r, reads) w = ap (λ p. p.1.nonces) (reads w)

bind-KeepsNonces :
    {A B : Type 0} (m : Handler A) (f : A → Handler B)
    → KeepsNonces m
    → ((a : A) → KeepsNonces (f a))
    → KeepsNonces (m >>= f)
unfolding KeepsNonces
bind-KeepsNonces m f h k w = continued (m w) ∙ h w
  where
    continued : (c : Result ApiError _ × World) → (proceed f c).1.nonces ≡ c.1.nonces
    continued (ok a, v) = k a v
    continued (err e, v) = refl

module _ {Key : Type 0} (libs : Libs Key) where
  grant_token-KeepsNonces :
      (secret : Text) (now : ℕ) (pubkey : Text) → KeepsNonces (grant_token libs secret now pubkey)
  unfolding grant_token KeepsNonces
  grant_token-KeepsNonces secret now pubkey w =
      elim (Option-cases (select_row (λ d. text_eq d.pubkey pubkey) w.db.devices)) [
        | inl e ↦ rw e refl
        | inr (device, e) ↦
            let stored : Result Failure (List Token) =
              insert_token (new_token libs secret now device.id) w.db.device_tokens in
            rw e (
              bind-KeepsNonces (store_token stored)
                (λ _. pure (record { token = secret; expires_in = token_ttl_secs }))
                (store_token-KeepsNonces stored) (λ _ v. refl) w)
      ]

  answer_challenge-KeepsNonces :
      (instant : ℕ) (secret : Text) (now : ℕ) (pubkey signature : Text) (key : PublicKey Key)
      (removed : Option (Bytes × ℕ))
      → KeepsNonces (answer_challenge libs instant secret now pubkey signature key removed)
  unfolding answer_challenge
  answer_challenge-KeepsNonces instant secret now pubkey signature key removed =
      bind-KeepsNonces (lift (pending_nonce instant removed)) _
        (reader-nonces _ (lift-IsReader (pending_nonce instant removed)))
        (λ nonce.
          bind-KeepsNonces
            (require_ok (verify libs.crypto key signature nonce)
              (unauthorized (codes "signature verification failed")))
            (λ _. grant_token libs secret now pubkey)
            (reader-nonces _ (require_ok-IsReader (verify libs.crypto key signature nonce) _))
            (λ _. grant_token-KeepsNonces secret now pubkey))

  device_login-used :
      (instant : ℕ) (secret : Text) (now : ℕ) (pubkey signature : Text) (w : World)
      (key : PublicKey Key)
      → from_base64 libs.crypto pubkey ≡ ok key
      → get_entry pubkey (device_login libs instant secret now pubkey signature w).1.nonces ≡ none
  unfolding device_login KeepsNonces
  device_login-used instant secret now pubkey signature w key e =
      rw (device_login, e)
        (ap (get_entry pubkey) (
            answer_challenge-KeepsNonces instant secret now pubkey signature key
              (get_entry pubkey w.nonces) _)
          ∙ get_entry-remove pubkey w.nonces)

  no_nonce :
      (instant : ℕ) (secret : Text) (now : ℕ) (pubkey signature : Text) (w : World)
      (key : PublicKey Key)
      → from_base64 libs.crypto pubkey ≡ ok key
      → get_entry pubkey w.nonces ≡ none
      → (device_login libs instant secret now pubkey signature w).0
        ≡ err (unauthorized (codes "no valid challenge"))
  unfolding device_login answer_challenge pending_nonce
  no_nonce instant secret now pubkey signature w key e absent = rw (device_login, e, absent) refl

  -- A challenge is good for one login only: whatever the answer to a login with a well-formed key
  -- was, a login for this key right after it, with any signature and at any time, is refused.
  pub device_login-single_use :
      (instant instant' : ℕ) (secret secret' : Text) (now now' : ℕ)
      (pubkey signature signature' : Text) (w : World) (key : PublicKey Key)
      → from_base64 libs.crypto pubkey ≡ ok key
      → (device_login libs instant' secret' now' pubkey signature'
          (device_login libs instant secret now pubkey signature w).1).0
        ≡ err (unauthorized (codes "no valid challenge"))
  unfolding device_login
  device_login-single_use instant instant' secret secret' now now' pubkey signature signature' w key
        e =
      no_nonce instant' secret' now' pubkey signature' _ key e
        (device_login-used instant secret now pubkey signature w key e)
