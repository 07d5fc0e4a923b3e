-- ===== src/Server/Ingest.antt =====
-- Report ingest of crates/ucrs-server/src/api.rs: `authenticate_device`, `parse_multipart`,
-- `post_report`. The times and random ids that a request draws are arguments.
use ucrashreport_server.Base.{
  List, Option, [], any, if◌then◌else◌, length, ltb, none, some, ℕ, ◌++◌, ◌∷◌,
}
use ucrashreport_server.Base.Results.{Result, err, ok}
use ucrashreport_server.Server.Crates.{FieldStream, Headers, Libs, broken_body, end_of_body, field}
use ucrashreport_server.Server.Monad.{
  ApiError, Handler, bad, gets, internal_error, lift, pure, raise, require, require_ok,
  unauthorized, ◌>>=◌,
}
use ucrashreport_server.Store.{Device, select_row, update_rows}
use ucrashreport_server.Text.{Text, byte_len, codes, get_entry, text_eq}
use ucrashreport_server.Types.{ReportMetadata, max_metadata_size, max_payload_size}
use ucrashreport_server.Usign.{Bytes, from_base64, verify}

pub record Draws : Type 0 where
  -- `now()` and `new_id()` of `authenticate_device`
  pub auth_time : ℕ
  pub device_id : Text
  -- `new_id()` of a uuid collision
  pub report_id : Text
  -- `now()` of the report's row, and `new_id()` of its job
  pub insert_time : ℕ
  pub job_id : Text

-- `INSERT INTO device .. ON CONFLICT(pubkey) DO UPDATE SET last_seen .. RETURNING id`, given the row
-- of the public key, if there is one; `none` is a conflict on the primary key.
unfoldable pub upsert_row : Device → List Device → Option Device → Option (Text × List Device)
upsert_row d devices none =
    if any (λ e. text_eq e.id d.id) devices then none else some (d.id, devices ++ d ∷ [])
upsert_row d devices (some old) = some (
  old.id,
  update_rows (λ e. text_eq e.pubkey d.pubkey) (λ e. record e { last_seen = d.last_seen }) devices,
)

unfoldable pub upsert_device : Device → List Device → Option (Text × List Device)
unfolding upsert_row
upsert_device d devices = upsert_row d devices (select_row (λ e. text_eq e.pubkey d.pubkey) devices)

abbrev pub new_device : Draws → Text → Device
new_device draws pubkey = record {
  id = draws.device_id;
  pubkey = pubkey;
  first_seen = draws.auth_time;
  last_seen = draws.auth_time;
}

-- The row of the statement, on the state.
unfoldable pub store_device : Option (Text × List Device) → Handler Text
store_device none w = (err internal_error, w)
store_device (some (id, devices)) w = (ok id, record w { db = record w.db { devices = devices } })

-- The text of a field "metadata", and the bytes of a field "payload".
unfoldable pub take_metadata : Option Text → Result ApiError Text
take_metadata none = err (bad (codes "invalid metadata"))
take_metadata (some t) =
    if ltb max_metadata_size (byte_len t) then err (bad (codes "metadata too large")) else ok t

unfoldable pub take_payload : Option Bytes → Result ApiError Bytes
take_payload none = err (bad (codes "invalid payload"))
take_payload (some b) =
    if ltb max_payload_size (length b) then err (bad (codes "payload too large")) else ok b

abbrev pub after_step {ℓ κ} :
    {A : Type ℓ} {B : Type κ} → Result ApiError A → (A → Result ApiError B) → Result ApiError B
after_step (ok a) f = f a
after_step (err e) f = err e

-- One field of the body.
unfoldable pub field_step :
    Option Text
    → Option Text
    → Option Bytes
    → Option Text × Option Bytes
    → Result ApiError (Option Text × Option Bytes)
unfolding take_metadata take_payload
field_step none text data_bytes acc = ok acc
field_step (some name) text data_bytes (metadata, payload) =
    if text_eq name (codes "metadata")
    then after_step (take_metadata text) (λ t. ok (some t, payload))
    else if text_eq name (codes "payload")
    then after_step (take_payload data_bytes) (λ b. ok (metadata, some b))
    else ok (metadata, payload)

-- The loop over the fields: a later field of a name replaces an earlier one.
unfoldable pub fields_loop :
    FieldStream → Option Text × Option Bytes → Result ApiError (Option Text × Option Bytes)
unfolding field_step
fields_loop end_of_body acc = ok acc
fields_loop broken_body acc = err (bad (codes "invalid multipart body"))
fields_loop (field name text data_bytes rest) acc =
    after_step (field_step name text data_bytes acc) (λ acc'. fields_loop rest acc')

-- `.map_err(|e| bad(&format!("invalid metadata: {e}")))?`
unfoldable pub lift_json : Result Text ReportMetadata → Handler ReportMetadata
lift_json (ok meta) = pure meta
lift_json (err e) = raise (bad (codes "invalid metadata: " ++ e))

pub record Created : Type 0 where
  pub report_id : Text
  pub view_url : Text

module _ {Key : Type 0} (libs : Libs Key) where
  -- The checks of `authenticate_device` for a key that the headers name.
  unfoldable pub check_signature : Headers → Bytes → Text → Handler (Unit {0})
  check_signature headers body pubkey = do
    sig ←
        require (get_entry (codes "x-ucr-signature") headers)
          (unauthorized (codes "pubkey without signature"))
    key ← require_ok (from_base64 libs.crypto pubkey) (bad (codes "invalid pubkey"))
    require_ok (verify libs.crypto key sig body)
        (unauthorized (codes "signature verification failed"))

  -- The upsert of `authenticate_device`.
  unfoldable pub register_device : Draws → Text → Handler (Option Text)
  unfolding store_device
  register_device draws pubkey = do
    devices ← gets (λ w. w.db.devices)
    id ← store_device (upsert_device (new_device draws pubkey) devices)
    pure (some id)

  unfoldable pub authenticate_key : Draws → Headers → Bytes → Text → Handler (Option Text)
  unfolding check_signature register_device
  authenticate_key draws headers body pubkey = do
    _ ← check_signature headers body pubkey
    register_device draws pubkey

  unfoldable pub authenticate_device : Draws → Headers → Bytes → Handler (Option Text)
  unfolding authenticate_key
  authenticate_device draws headers body = elim (get_entry (codes "x-ucr-pubkey") headers) [
    | none ↦ pure none
    | some pubkey ↦ authenticate_key draws headers body pubkey
  ]

  -- `parse_multipart` from the two fields on.
  unfoldable pub parse_fields : Option Text × Option Bytes → Handler (ReportMetadata × Bytes)
  unfolding lift_json
  parse_fields (metadata, payload) = do
    text ← require metadata (bad (codes "missing metadata field"))
    bytes ← require payload (bad (codes "missing payload field"))
    meta ← lift_json (libs.parse_metadata text)
    pure (meta, bytes)

  unfoldable pub parse_multipart : Headers → Bytes → Handler (ReportMetadata × Bytes)
  unfolding fields_loop parse_fields
  parse_multipart headers body = do
    ct ← require (get_entry (codes "content-type") headers) (bad (codes "missing content-type"))
    boundary ← require (libs.parse_boundary ct) (bad (codes "invalid content-type"))
    fields ← lift (fields_loop (libs.multipart boundary body) (none, none))
    parse_fields fields

  -- `respond_created`
  unfoldable pub respond_created : Text → Created
  respond_created report_id = record {
    report_id = report_id;
    view_url = libs.base_url ++ (codes "/reports/" ++ report_id);
  }
