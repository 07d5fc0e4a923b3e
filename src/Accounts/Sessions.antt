-- ===== src/Accounts/Sessions.antt =====
-- A session from login to logout, crates/ucrs-server/src/auth.rs.
use ucrashreport_server.Accounts.Defs.{
  Secrets, dev_from_cookie, insert_token, is_live, login, login_row, logout, open_session,
  session_ttl_secs, session_user, token_hash_of, verify_password,
}
use ucrashreport_server.Base.{
  Bool-cases, List, Member, Option, [], any, any-Member, any-append, ap₂, arith, false,
  if◌then◌else◌, inl, inr, ltb, none, refl, some, sym, true, ℕ, ◌++◌, ◌+◌, ◌||◌, ◌∙◌, ◌∷◌, ◌≡◌,
}
use ucrashreport_server.Base.Results.{ok}
use ucrashreport_server.Store.{Db, DevUser, Token, delete_rows, select_row}
use ucrashreport_server.Store.Lookup.{select_row-eq-some}
use ucrashreport_server.Text.{Text, text_eq, text_eq_iff, text_eq_refl}

-- No two accounts share an id, as the primary key has it.
abbrev pub UniqueIds : List DevUser → Type 0
UniqueIds [] = Unit
UniqueIds (u ∷ us) = (any (λ v. text_eq v.id u.id) us ≡ false) × UniqueIds us

select_row-UniqueIds :
    (users : List DevUser) (u : DevUser)
    → UniqueIds users
    → Member u users
    → select_row (λ v. text_eq v.id u.id) users ≡ some u
select_row-UniqueIds [] u unique m = elim m [ ]
select_row-UniqueIds (v ∷ users) u unique (inl e) = rw (e, text_eq_refl u.id)
select_row-UniqueIds (v ∷ users) u unique (inr m) = elim (Bool-cases (text_eq v.id u.id)) [
  | inl same ↦
      let clash : any (λ w. text_eq w.id v.id) users ≡ true =
        any-Member (λ w. text_eq w.id v.id) u users m
          ((text_eq_iff u.id v.id).1 (sym ((text_eq_iff v.id u.id).0 same))) in
      cc (clash, unique.0)
  | inr differs ↦ rw differs (select_row-UniqueIds users u unique.1 m)
]

-- Creating an account keeps the ids apart.
UniqueIds-concat :
    (users : List DevUser) (u : DevUser)
    → UniqueIds users
    → any (λ v. text_eq v.id u.id || text_eq v.login u.login) users ≡ false
    → UniqueIds (users ++ u ∷ [])
UniqueIds-concat [] u unique h = (refl, tt)
UniqueIds-concat (v ∷ users) u unique h = (
  rw (any-append (λ w. text_eq w.id v.id) users (u ∷ []), unique.0)
      (ground (arith, text_eq_iff u.id v.id, text_eq_iff v.id u.id, text_eq_refl u.id)),
  UniqueIds-concat users u unique.1 (ground arith),
)

module _ (users : List DevUser) (hash : Text) (now : ℕ) where
  session_user-fresh :
      (ts : List Token)
      → any (λ t. text_eq t.token_hash hash) ts ≡ false
      → session_user users (is_live hash now) ts ≡ none
  unfolding session_user
  session_user-fresh [] h = refl
  session_user-fresh (t ∷ ts) h = ground (arith, session_user-fresh ts)

  session_user-append :
      (ts us : List Token)
      → any (λ t. text_eq t.token_hash hash) ts ≡ false
      → session_user users (is_live hash now) (ts ++ us) ≡ session_user users (is_live hash now) us
  unfolding session_user
  session_user-append [] us h = refl
  session_user-append (t ∷ ts) us h = ground (arith, session_user-append ts us)

  session_user-logout :
      (ts : List Token)
      → session_user users (is_live hash now) (delete_rows (λ t. text_eq t.token_hash hash) ts)
        ≡ none
  unfolding session_user
  session_user-logout [] = refl
  session_user-logout (t ∷ ts) = ground (arith, session_user-logout ts)

-- After a logout the cookie is refused at any time.
pub logout-dev_from_cookie :
    (secrets : Secrets) (now : ℕ) (db : Db) (token : Text)
    → dev_from_cookie secrets now (logout secrets db token) (some token) ≡ none
unfolding dev_from_cookie logout
logout-dev_from_cookie secrets now db token =
    session_user-logout db.users (token_hash_of secrets token) now db.dev_sessions

-- What a login adds.
abbrev new_session : Secrets → Text → ℕ → DevUser → Token
new_session secrets secret now user = record {
  token_hash = token_hash_of secrets secret;
  owner = user.id;
  expires = now + session_ttl_secs;
}

record LoggedIn (secrets : Secrets) (secret : Text) (now : ℕ) (db : Db) (user : DevUser)
    (password token : Text) (db' : Db) : Type 0 where
  verified : verify_password secrets password user.pw_hash ≡ true
  fresh : any (λ u. text_eq u.token_hash (token_hash_of secrets secret)) db.dev_sessions ≡ false
  token_is : token ≡ secret
  after :
      db' ≡ record db { dev_sessions = db.dev_sessions ++ new_session secrets secret now user ∷ [] }

module _ (secrets : Secrets) (secret : Text) (now : ℕ) (db : Db) (password token : Text)
    (db' : Db) where
  open_session-LoggedIn :
      (user : DevUser)
      → open_session secrets secret now db user password ≡ ok (some token, db')
      → LoggedIn secrets secret now db user password token db'
  unfolding open_session insert_token
  open_session-LoggedIn user h = record {
    verified = ground arith;
    fresh = ground arith;
    token_is = ground arith;
    after = ground arith;
  }

  login_row-LoggedIn :
      (o : Option DevUser)
      → login_row secrets secret now db o password ≡ ok (some token, db')
      → (user : DevUser) × (o ≡ some user) × LoggedIn secrets secret now db user password token db'
  unfolding login_row
  login_row-LoggedIn none h = cc
  login_row-LoggedIn (some user) h = (user, refl, open_session-LoggedIn user h)

session_user-single :
    (users : List DevUser) (user : DevUser) (t : Token) (now : ℕ)
    → UniqueIds users
    → Member user users
    → t.owner ≡ user.id
    → session_user users (is_live t.token_hash now) (t ∷ [])
      ≡ (if ltb now t.expires then some user else none)
unfolding session_user
session_user-single users user t now unique there owner =
    rw (text_eq_refl t.token_hash, owner, select_row-UniqueIds users user unique there)

-- A login with a password that the account's hash verifies gives a cookie that stands for this
-- account until the session's time is over, and for nobody from then on.
pub login-dev_from_cookie :
    (secrets : Secrets) (secret : Text) (now now' : ℕ) (db : Db) (name password token : Text)
    (db' : Db)
    → UniqueIds db.users
    → login secrets secret now db name password ≡ ok (some token, db')
    → (user : DevUser) × (user.login ≡ name)
      × (verify_password secrets password user.pw_hash ≡ true)
      × (dev_from_cookie secrets now' db' (some token)
          ≡ (if ltb now' (now + session_ttl_secs) then some user else none))
unfolding login dev_from_cookie
login-dev_from_cookie secrets secret now now' db name password token db' unique h =
    let (user, found, r) =
      login_row-LoggedIn secrets secret now db password token db'
        (select_row (λ u. text_eq u.login name) db.users) h in
    let (named, there) = select_row-eq-some (λ u. text_eq u.login name) db.users user found in
    let t : Token = new_session secrets secret now user in
    (
      user,
      (text_eq_iff user.login name).0 named,
      r.verified,
      ap₂ (λ d k. dev_from_cookie secrets now' d (some k)) r.after r.token_is
          ∙ session_user-append db.users t.token_hash now' db.dev_sessions (t ∷ []) r.fresh
          ∙ session_user-single db.users user t now' unique there refl,
    )
