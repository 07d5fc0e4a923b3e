-- ===== src/Server/Devices.antt =====
-- Trust on first use in crates/ucrs-server/src/api.rs: which row a public key has.
use ucrashreport_server.Base.{
  Bool-cases, List, Option, [], any, ap, arith, inl, inr, none, refl, some, some-eq, subst, sym,
  ◌++◌, ◌∙◌, ◌∷◌, ◌≡◌,
}
use ucrashreport_server.Base.Results.{err, ok}
use ucrashreport_server.Server.Crates.{Libs}
use ucrashreport_server.Server.Ingest.{
  Draws, new_device, register_device, store_device, upsert_device, upsert_row,
}
use ucrashreport_server.Server.Monad.{ApiError, World, internal_error, pure, ◌>>=◌}
use ucrashreport_server.Store.{Device, select_row, update_rows}
use ucrashreport_server.Store.Lookup.{select_row-append, select_row-eq-some, select_row-update}
use ucrashreport_server.Text.{Text, text_eq, text_eq_refl}

-- The clause `WHERE pubkey = ?` selects a row with this id.
abbrev pub IsRegistered : List Device → Text → Text → Type 0
IsRegistered devices pubkey id =
    (d : Device) × (select_row (λ e. text_eq e.pubkey pubkey) devices ≡ some d) × (d.id ≡ id)

upsert_row-IsRegistered :
    (d : Device) (devices : List Device) (o : Option Device) (id : Text) (devices' : List Device)
    → select_row (λ e. text_eq e.pubkey d.pubkey) devices ≡ o
    → upsert_row d devices o ≡ some (id, devices')
    → IsRegistered devices' d.pubkey id
unfolding upsert_row
upsert_row-IsRegistered d devices none id devices' e h =
    elim (Bool-cases (any (λ e. text_eq e.id d.id) devices)) [
      | inl clash ↦ cc (rw clash at h)
      | inr free ↦
          let same : (d.id, devices ++ d ∷ []) ≡ (id, devices') = some-eq _ _ (rw free at h) in
          subst (λ (i, ds). IsRegistered ds d.pubkey i) same
            (d, rw (select_row-append _ devices (d ∷ []) e, text_eq_refl d.pubkey), refl)
    ]
upsert_row-IsRegistered d devices (some old) id devices' e h =
    subst (λ (i, ds). IsRegistered ds d.pubkey i) (some-eq _ _ h)
      (
        record old { last_seen = d.last_seen },
        select_row-update (λ e. text_eq e.pubkey d.pubkey) (λ e. text_eq e.pubkey d.pubkey) _
              devices (λ x. refl)
            ∙ rw (e, (select_row-eq-some _ devices old e).0),
        refl,
      )

upsert_row-known :
    (d : Device) (devices : List Device) (id : Text)
    → IsRegistered devices d.pubkey id
    → (devices' : List Device) × (upsert_device d devices ≡ some (id, devices'))
unfolding upsert_device upsert_row
upsert_row-known d devices id (old, e, i) =
    let devices' : List Device =
      update_rows (λ e. text_eq e.pubkey d.pubkey) (λ e. record e { last_seen = d.last_seen })
        devices in
    (devices', ap (upsert_row d devices) e ∙ ap (λ k. some (k, devices')) i)

-- Only the devices of the state differ.
abbrev pub with_devices : World → List Device → World
with_devices w devices = record w { db = record w.db { devices = devices } }

module _ {Key : Type 0} (libs : Libs Key) where
  store_device-succeeds :
      (o : Option (Text × List Device)) (w w' : World) (device : Option Text)
      → (store_device o >>= λ id. pure (some id)) w ≡ (ok device, w')
      → (id : Text) × (devices : List Device) × (o ≡ some (id, devices))
        × (device ≡ some id)
        × (w' ≡ with_devices w devices)
  unfolding store_device
  store_device-succeeds none w w' device h = cc
  store_device-succeeds (some (id, devices)) w w' device h =
      (id, devices, refl, ground arith, ground arith)

  -- A registration keeps all but the devices, and the device's id is its row's.
  pub register_device-succeeds :
      (draws : Draws) (pubkey : Text) (w w' : World) (device : Option Text)
      → register_device libs draws pubkey w ≡ (ok device, w')
      → (id : Text) × (device ≡ some id)
        × IsRegistered w'.db.devices pubkey id
        × (w' ≡ with_devices w w'.db.devices)
  unfolding register_device upsert_device
  register_device-succeeds draws pubkey w w' device h =
      let (id, devices, found, is, after) = store_device-succeeds _ w w' device h in
      (
        id,
        is,
        subst (λ ds. IsRegistered ds pubkey id) (ap (λ v. v.db.devices) (sym after))
            (upsert_row-IsRegistered _ w.db.devices _ id devices refl found),
        after ∙ ap (λ v. with_devices w v.db.devices) (sym after),
      )

  -- A device that is known keeps its id.
  pub register_device-again :
      (draws : Draws) (pubkey id : Text) (w : World)
      → IsRegistered w.db.devices pubkey id
      → (devices : List Device) × (register_device libs draws pubkey w
          ≡ (ok (some id), with_devices w devices))
  unfolding register_device store_device
  register_device-again draws pubkey id w known =
      let (devices, e) = upsert_row-known (new_device draws pubkey) w.db.devices id known in
      (devices, ap (λ o. (store_device o >>= λ id. pure (some id)) w) e)

  store_device-fails :
      (o : Option (Text × List Device)) (w w' : World) (e : ApiError)
      → (store_device o >>= λ id. pure (some id)) w ≡ (err e, w')
      → e ≡ internal_error
  unfolding store_device
  store_device-fails none w w' e h = ground arith
  store_device-fails (some (id, devices)) w w' e h = cc

  pub register_device-fails :
      (draws : Draws) (pubkey : Text) (w w' : World) (e : ApiError)
      → register_device libs draws pubkey w ≡ (err e, w')
      → e ≡ internal_error
  unfolding register_device
  register_device-fails draws pubkey w w' e h = store_device-fails _ w w' e h
