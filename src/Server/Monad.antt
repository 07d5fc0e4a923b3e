-- ===== src/Server/Monad.antt =====
-- Handlers of crates/ucrs-server/src/api.rs: they read and change the state, which keeps what was
-- done before an early return, and answer or fail with an `ApiError`.
use ucrashreport_server.Base.{Bool, List, Option, false, none, some, true, ℕ}
use ucrashreport_server.Base.Results.{Result, err, ok}
use ucrashreport_server.Store.{Db}
use ucrashreport_server.Text.{Text, codes}
use ucrashreport_server.Usign.{Bytes}

pub record ApiError : Type 0 where
  pub status : ℕ
  pub message : Text

-- `AppState` with the directories that it leads to: raw payloads and decoded texts by report id,
-- and the pending login nonces by public key, each with its time in nanoseconds.
pub record World : Type 0 where
  pub db : Db
  pub raw_files : List (Text × Bytes)
  pub decoded_files : List (Text × Text)
  pub nonces : List (Text × (Bytes × ℕ))

abbrev pub Handler : Type 0 → Type 0
Handler A = World → Result ApiError A × World

module _ {A : Type 0} where
  abbrev pub pure : A → Handler A
  pure a w = (ok a, w)

  abbrev pub raise : ApiError → Handler A
  raise e w = (err e, w)

  abbrev pub gets : (World → A) → Handler A
  gets f w = (ok (f w), w)

  -- `.ok_or_else(|| e)?`
  abbrev pub require : Option A → ApiError → Handler A
  require none e = raise e
  require (some a) e = pure a

  -- `.map_err(|_| e)?`
  abbrev pub require_ok {ℓ} : {E : Type ℓ} → Result E A → ApiError → Handler A
  require_ok (ok a) e = pure a
  require_ok (err _) e = raise e

  abbrev pub lift : Result ApiError A → Handler A
  lift (ok a) = pure a
  lift (err e) = raise e

module _ {A B : Type 0} where
  abbrev pub proceed : (A → Handler B) → Result ApiError A × World → Result ApiError B × World
  proceed f (ok a, w) = f a w
  proceed f (err e, w) = (err e, w)

infixl 5 ◌>>=◌ ◌>>◌
abbrev pub ◌>>=◌ : {A B : Type 0} → Handler A → (A → Handler B) → Handler B
◌>>=◌ m f w = proceed f (m w)

abbrev pub ◌>>◌ : {B : Type 0} → Handler (Unit {0}) → Handler B → Handler B
m >> k = m >>= λ _. k

abbrev pub raise_if : Bool → ApiError → Handler (Unit {0})
raise_if true e w = (err e, w)
raise_if false e w = (ok tt, w)

abbrev pub modify : (World → World) → Handler (Unit {0})
modify f w = (ok tt, f w)

-- `bad`
abbrev pub bad : Text → ApiError
bad msg = record { status = 400; message = msg }

abbrev pub unauthorized : Text → ApiError
unauthorized msg = record { status = 401; message = msg }

abbrev pub not_found : Text → ApiError
not_found msg = record { status = 404; message = msg }

-- `impl From<anyhow::Error> for ApiError`
abbrev pub internal_error : ApiError
internal_error = record { status = 500; message = codes "internal error" }
