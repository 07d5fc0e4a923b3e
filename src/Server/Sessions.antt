-- ===== src/Server/Sessions.antt =====
-- What a device login of crates/ucrs-server/src/api.rs gives: a token that stands for the device.
use ucrashreport_server.Accounts.{
  device_from_bearer, insert_token, is_live, token_device, token_hash_of,
}
use ucrashreport_server.Base.{
  Bool, Bool-cases, List, Option, Option-cases, [], any, ap, ap₂, arith, false, if◌then◌else◌, inl,
  inr, ltb, none, refl, some, sym, true, ℕ, ◌++◌, ◌+◌, ◌-◌, ◌<◌, ◌∙◌, ◌∷◌, ◌≡◌, ◌⊎◌,
}
use ucrashreport_server.Base.Results.{Result-cases, err, ok}
use ucrashreport_server.Server.Crates.{Libs}
use ucrashreport_server.Server.Devices.{IsRegistered}
use ucrashreport_server.Server.Login.{
  Session, answer_challenge, device_login, grant_token, is_fresh, new_token, nonce_ttl,
  pending_nonce, store_token, token_ttl_secs,
}
use ucrashreport_server.Server.Monad.{ApiError, World, unauthorized}
use ucrashreport_server.Store.{Token, select_row}
use ucrashreport_server.Store.Lookup.{select_row-append}
use ucrashreport_server.Text.{
  Text, codes, get_entry, starts_with, strip_prefix, text_eq, text_eq_refl,
}
use ucrashreport_server.Usign.{Bytes, PublicKey, from_base64, verify}
use mathlib.Core.Option

fresh-token :
    (hash : Text) (now : ℕ) (ts : List Token)
    → any (λ u. text_eq u.token_hash hash) ts ≡ false
    → select_row (is_live hash now) ts ≡ none
fresh-token hash now [] h = refl
fresh-token hash now (t ∷ ts) h = ground (arith, fresh-token hash now ts)

single-live :
    {Key : Type 0} (libs : Libs Key) (secret : Text) (now now' : ℕ) (device : Text)
    → Option.map
        (λ t. t.owner)
        (select_row
          (is_live (token_hash_of libs.secrets secret) now')
          (new_token libs secret now device ∷ []))
      ≡ (if ltb now' (now + token_ttl_secs) then some device else none)
single-live libs secret now now' device =
    rw (text_eq_refl (token_hash_of libs.secrets secret)) (live (ltb now' (now + token_ttl_secs)))
  where
    live :
        (b : Bool)
        → Option.map (λ t. t.owner) (if b then some (new_token libs secret now device) else none)
          ≡ (if b then some device else none)
    live true = refl
    live false = refl

-- A nonce that is pending: there is one, and it is young.
pending_cases :
    (now : ℕ) (o : Option (Bytes × ℕ))
    → ((nonce : Bytes) × (t : ℕ) × (o ≡ some (nonce, t))
        × (now - t < nonce_ttl)
        × (pending_nonce now o ≡ ok nonce))
      ⊎ ((e : ApiError) × (pending_nonce now o ≡ err e))
unfolding pending_nonce is_fresh
pending_cases now none = inr (_, refl)
pending_cases now (some (nonce, t)) = elim (Bool-cases (ltb (now - t) nonce_ttl)) [
  | inl e ↦ inl (nonce, t, refl, ground (arith, e), rw e refl)
  | inr e ↦ inr (unauthorized (codes "no valid challenge"), rw e refl)
]

module _ {Key : Type 0} (libs : Libs Key) where
  -- What was added, and for whom.
  record IsGranted (secret : Text) (now : ℕ) (pubkey : Text) (session : Session) (w w' : World)
      : Type 0 where
    device : Text
    registered : IsRegistered w.db.devices pubkey device
    token_is : session.token ≡ secret
    fresh :
        any (λ u. text_eq u.token_hash (token_hash_of libs.secrets secret)) w.db.device_tokens
        ≡ false
    after : w'.db ≡ record w.db {
      device_tokens = w.db.device_tokens ++ new_token libs secret now device ∷ [];
    }

  grant_token-IsGranted :
      (secret : Text) (now : ℕ) (pubkey : Text) (session : Session) (w w' : World)
      → grant_token libs secret now pubkey w ≡ (ok session, w')
      → IsGranted secret now pubkey session w w'
  unfolding grant_token insert_token store_token
  grant_token-IsGranted secret now pubkey session w w' h =
      elim (Option-cases (select_row (λ d. text_eq d.pubkey pubkey) w.db.devices)) [
        | inl e ↦ cc (rw e at h)
        | inr (device, e) ↦
            let h1 = rw e at h in
            elim (Bool-cases (
              any (λ u. text_eq u.token_hash (token_hash_of libs.secrets secret))
                w.db.device_tokens)) [
                  | inl f ↦ cc (rw f at h1)
                  | inr f ↦
                      let h2 = rw f at h1 in
                      record {
                        device = device.id;
                        registered = (device, e, refl);
                        token_is = ground (arith, h2);
                        fresh = f;
                        after = ap (λ p. p.1.db) (sym h2);
                      }
                ]
      ]

  granted-bearer :
      (secret : Text) (now now' : ℕ) (pubkey : Text) (session : Session) (w w' : World)
      (g : IsGranted secret now pubkey session w w')
      → device_from_bearer libs.secrets now' w'.db (some (codes "Bearer " ++ session.token))
        ≡ (if ltb now' (now + token_ttl_secs) then some g.device else none)
  unfolding device_from_bearer token_device strip_prefix starts_with
  granted-bearer secret now now' pubkey session w w' g =
      let hash : Text = token_hash_of libs.secrets secret in
      ap₂ (λ d t. device_from_bearer libs.secrets now' d (some (codes "Bearer " ++ t))) g.after
        g.token_is
      ∙ ap (Option.map (λ t. t.owner)) (
          select_row-append (is_live hash now') w.db.device_tokens
            (new_token libs secret now g.device ∷ [])
            (fresh-token hash now' w.db.device_tokens g.fresh))
      ∙ single-live libs secret now now' g.device

  -- A login answers with a token only where the key had a challenge younger than its time to live
  -- and the signature is one of the challenge's nonce by the key. The token then stands for the
  -- device that is registered with the key, until its time is over, and for nobody from then on.
  pub device_login-bearer :
      (instant : ℕ) (secret : Text) (now now' : ℕ) (pubkey signature : Text) (w w' : World)
      (session : Session)
      → device_login libs instant secret now pubkey signature w ≡ (ok session, w')
      → (key : PublicKey Key) × (nonce : Bytes) × (t : ℕ) × (device : Text) × (from_base64
            libs.crypto pubkey
          ≡ ok key)
        × (get_entry pubkey w.nonces ≡ some (nonce, t))
        × (instant - t < nonce_ttl)
        × (verify libs.crypto key signature nonce ≡ ok tt)
        × IsRegistered w.db.devices pubkey device
        × (device_from_bearer libs.secrets now' w'.db (some (codes "Bearer " ++ session.token))
            ≡ (if ltb now' (now + token_ttl_secs) then some device else none))
  unfolding device_login answer_challenge
  device_login-bearer instant secret now now' pubkey signature w w' session h =
      elim (Result-cases (from_base64 libs.crypto pubkey)) [
        | inr (_, e) ↦ cc (rw (device_login, e) at h)
        | inl (key, e1) ↦
            let h1 = rw (device_login, e1) at h in
            elim (pending_cases instant (get_entry pubkey w.nonces)) [
              | inr (_, e) ↦ cc (rw e at h1)
              | inl (nonce, t, e2, young, e3) ↦
                  let h2 = rw e3 at h1 in
                  elim (Result-cases (verify libs.crypto key signature nonce)) [
                    | inr (_, e) ↦ cc (rw e at h2)
                    | inl (tt, e4) ↦
                        let g =
                          grant_token-IsGranted secret now pubkey session _ w' (rw e4 at h2) in
                        (
                          key,
                          nonce,
                          t,
                          g.device,
                          e1,
                          e2,
                          young,
                          e4,
                          g.registered,
                          granted-bearer secret now now' pubkey session _ w' g,
                        )
                  ]
            ]
      ]
