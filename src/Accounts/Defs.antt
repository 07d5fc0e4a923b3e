-- ===== src/Accounts/Defs.antt =====
-- The functions of crates/ucrs-server/src/auth.rs on the database. Random values and the time are
-- arguments, in the order in which the source draws them.
use ucrashreport_server.Base.{
  Bool, List, Option, [], any, if◌then◌else◌, ltb, none, not, some, take, ℕ, ◌&&◌, ◌*◌, ◌++◌, ◌+◌,
  ◌||◌, ◌∷◌,
}
use ucrashreport_server.Base.Results.{Result, err, ok, ok_or, ◌>>=◌}
use ucrashreport_server.Store.{Db, DevUser, Token, delete_rows, select_row}
use ucrashreport_server.Text.{Text, codes, strip_prefix, text_eq}
use mathlib.Core.Option

abbrev pub session_ttl_secs : ℕ
session_ttl_secs = 7 * 24 * 3600

-- What the crates `argon2`, `sha2` and `hex` do for this file.
pub record Secrets : Type 0 where
  -- `hex::encode(Sha256::digest(token.as_bytes()))`
  pub token_digest : Text → Text
  -- `Argon2::hash_password` with the given salt, as a text; `none` on an error
  pub argon2_hash : Text → Text → Option Text
  -- `PasswordHash::new` and `verify_password`, of a password against a text
  pub argon2_verify : Text → Text → Bool

pub data Failure : Type 0 where
  hashing constraint : Failure

-- `INSERT` into a token table, whose primary key is the hash.
unfoldable pub insert_token : Token → List Token → Result Failure (List Token)
insert_token t ts =
    if any (λ u. text_eq u.token_hash t.token_hash) ts then err constraint else ok (ts ++ t ∷ [])

-- `INSERT INTO dev_user`, with the primary key and the unique login.
unfoldable pub insert_user : DevUser → Db → Result Failure Db
insert_user u db =
    if any (λ v. text_eq v.id u.id || text_eq v.login u.login) db.users
    then err constraint
    else ok (record db { users = db.users ++ u ∷ [] })

-- `WHERE token_hash = ? AND expires > ?`
abbrev pub is_live : Text → ℕ → Token → Bool
is_live hash now t = text_eq t.token_hash hash && ltb now t.expires

abbrev pub prefer : {A : Type 0} → Option A → Option A → Option A
prefer none rest = rest
prefer (some a) _ = some a

-- `JOIN dev_user u ON u.id = s.user_id`: the first selected session that has a user.
unfoldable pub session_user : List DevUser → (Token → Bool) → List Token → Option DevUser
session_user users p [] = none
session_user users p (s ∷ ss) =
    let rest = session_user users p ss in
    if p s then prefer (select_row (λ u. text_eq u.id s.owner) users) rest else rest

module _ (secrets : Secrets) where
  unfoldable pub token_hash_of : Text → Text
  token_hash_of token = secrets.token_digest token

  -- `hash_password`, with the salt that it draws.
  unfoldable pub hash_password : Text → Text → Result Failure Text
  hash_password salt password = ok_or (secrets.argon2_hash salt password) hashing

  unfoldable pub verify_password : Text → Text → Bool
  verify_password password hash = secrets.argon2_verify password hash

  -- `create_user`; the arguments are `new_secret()`, the salt and the new id.
  unfoldable pub create_user : Text → Text → Text → Db → Text → Result Failure (Text × Db)
  unfolding insert_user hash_password
  create_user secret salt id db login = do
    let password : Text = take 20 secret
    hash ← hash_password salt password
    db' ← insert_user (record { id = id; login = login; pw_hash = hash }) db
    ok (password, db')

  -- `login` for the row of the account.
  unfoldable pub open_session : Text → ℕ → Db → DevUser → Text → Result Failure (Option Text × Db)
  unfolding insert_token token_hash_of
  open_session secret now db user password =
      if not (verify_password password user.pw_hash) then ok (none, db) else (do
        sessions ←
            insert_token
              (record {
                token_hash = token_hash_of secret;
                owner = user.id;
                expires = now + session_ttl_secs;
              })
              db.dev_sessions
        ok (some secret, record db { dev_sessions = sessions }))

  -- `login` from the row of the account, if there is one.
  unfoldable pub login_row :
      Text → ℕ → Db → Option DevUser → Text → Result Failure (Option Text × Db)
  login_row secret now db none password = ok (none, db)
  login_row secret now db (some user) password = open_session secret now db user password

  -- `login`; the first two arguments are `new_secret()` and `now()`.
  unfoldable pub login : Text → ℕ → Db → Text → Text → Result Failure (Option Text × Db)
  unfolding login_row open_session
  login secret now db name password =
      login_row secret now db (select_row (λ u. text_eq u.login name) db.users) password

  unfoldable pub logout : Db → Text → Db
  unfolding token_hash_of
  logout db token = record db {
    dev_sessions = delete_rows (λ s. text_eq s.token_hash (token_hash_of token)) db.dev_sessions;
  }

  -- `Dev::from_request_parts` from the session cookie; `none` is the redirect to /login.
  unfoldable pub dev_from_cookie : ℕ → Db → Option Text → Option DevUser
  unfolding session_user token_hash_of
  dev_from_cookie now db none = none
  dev_from_cookie now db (some cookie) =
      session_user db.users (is_live (token_hash_of cookie) now) db.dev_sessions

  -- The device of a token, for `device_from_bearer`.
  unfoldable pub token_device : ℕ → Db → Text → Option Text
  unfolding token_hash_of
  token_device now db token =
      Option.map (λ t. t.owner) (select_row (is_live (token_hash_of token) now) db.device_tokens)

  -- `device_from_bearer`, from the "authorization" header where it is a text.
  unfoldable pub device_from_bearer : ℕ → Db → Option Text → Option Text
  unfolding token_device
  device_from_bearer now db none = none
  device_from_bearer now db (some value) = elim (strip_prefix value (codes "Bearer ")) [
    | none ↦ none
    | some token ↦ token_device now db token
  ]

-- One round of the hourly cleanup of crates/ucrs-server/src/main.rs.
unfoldable pub clean_expired : ℕ → Db → Db
clean_expired now db = record db {
  dev_sessions = delete_rows (λ s. ltb s.expires now) db.dev_sessions;
  device_tokens = delete_rows (λ t. ltb t.expires now) db.device_tokens;
}
