-- ===== src/Server/Signed.antt =====
-- What an authenticated request proves, crates/ucrs-server/src/api.rs.
use ucrashreport_server.Base.{Option, Option-cases, ap, arith, inl, inr, none, some, sym, ◌∙◌, ◌≡◌}
use ucrashreport_server.Base.Results.{Result-cases, ok}
use ucrashreport_server.Server.Crates.{Headers, Libs}
use ucrashreport_server.Server.Devices.{IsRegistered, register_device-succeeds, with_devices}
use ucrashreport_server.Server.Ingest.{
  Draws, authenticate_device, authenticate_key, check_signature, register_device,
}
use ucrashreport_server.Server.Monad.{World}
use ucrashreport_server.Server.Runs.{bind-succeeds}
use ucrashreport_server.Text.{Text, codes, get_entry}
use ucrashreport_server.Usign.{Bytes, PublicKey, from_base64, verify}

module _ {Key : Type 0} (libs : Libs Key) where
  -- The headers carry a signature of the body by this key.
  unfoldable pub IsSigned : Headers → Bytes → Text → Type 0
  IsSigned headers body pubkey =
      (sig : Text) × (key : PublicKey Key) × (get_entry (codes "x-ucr-signature") headers
        ≡ some sig)
      × (from_base64 libs.crypto pubkey ≡ ok key)
      × (verify libs.crypto key sig body ≡ ok tt)

  check_signature-succeeds :
      (headers : Headers) (body : Bytes) (pubkey : Text) (w w' : World)
      → check_signature libs headers body pubkey w ≡ (ok tt, w')
      → IsSigned headers body pubkey × (w ≡ w')
  unfolding check_signature IsSigned
  check_signature-succeeds headers body pubkey w w' h =
      elim (Option-cases (get_entry (codes "x-ucr-signature") headers)) [
        | inl e ↦ cc (rw e at h)
        | inr (sig, e1) ↦
            let h1 = rw e1 at h in
            elim (Result-cases (from_base64 libs.crypto pubkey)) [
              | inr (e, e2) ↦ cc (rw e2 at h1)
              | inl (key, e2) ↦
                  let h2 = rw e2 at h1 in
                  elim (Result-cases (verify libs.crypto key sig body)) [
                    | inr (e, e3) ↦ cc (rw e3 at h2)
                    | inl (tt, e3) ↦ ((sig, key, e1, e2, e3), ap (λ p. p.1) (rw e3 at h2))
                  ]
            ]
      ]

  -- How a request that names this key, or none, is authenticated.
  unfoldable pub IsAuthenticated :
      Headers → Bytes → Option Text → Option Text → World → World → Type 0
  IsAuthenticated headers body none device w w' = (device ≡ none) × (w' ≡ w)
  IsAuthenticated headers body (some pubkey) device w w' =
      (id : Text) × (device ≡ some id)
      × IsSigned headers body pubkey
      × IsRegistered w'.db.devices pubkey id
      × (w' ≡ with_devices w w'.db.devices)

  -- A request without a public key is anonymous and changes nothing. One with a public key gets
  -- through only with a signature of the whole body by this key, and then stands for the device
  -- whose row has the key, while nothing but the devices changes.
  pub authenticate_device-IsAuthenticated :
      (draws : Draws) (headers : Headers) (body : Bytes) (w w' : World) (device : Option Text)
      → authenticate_device libs draws headers body w ≡ (ok device, w')
      → IsAuthenticated headers body (get_entry (codes "x-ucr-pubkey") headers) device w w'
  unfolding authenticate_device authenticate_key IsAuthenticated
  authenticate_device-IsAuthenticated draws headers body w w' device h =
      elim (Option-cases (get_entry (codes "x-ucr-pubkey") headers)) [
        | inl e ↦ rw e (ground (arith, rw (e, authenticate_device) at h))
        | inr (pubkey, e) ↦
            let (a, w1, h1, h2) =
              bind-succeeds (check_signature libs headers body pubkey)
                (λ _. register_device libs draws pubkey) device w w'
                (rw (e, authenticate_device) at h) in
            let (signed, same) = check_signature-succeeds headers body pubkey w w1 h1 in
            let (id, is, known, after) =
              register_device-succeeds libs draws pubkey w1 w' device h2 in
            rw e (id, is, signed, known, after ∙ ap (λ v. with_devices v w'.db.devices) (sym same))
      ]

  pub IsAuthenticated-with_devices :
      (headers : Headers) (body : Bytes) (key device : Option Text) (w w' : World)
      → IsAuthenticated headers body key device w w'
      → w' ≡ with_devices w w'.db.devices
  unfolding IsAuthenticated
  IsAuthenticated-with_devices headers body none device w w' (_, same) =
      same ∙ ap (λ v. with_devices w v.db.devices) (sym same)
  IsAuthenticated-with_devices headers body (some pubkey) device w w' (_, _, _, _, after) = after
