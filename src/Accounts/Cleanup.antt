-- ===== src/Accounts/Cleanup.antt =====
-- The hourly cleanup of crates/ucrs-server/src/main.rs removes only what crates/ucrs-server/src/auth.rs
-- would refuse anyway.
use ucrashreport_server.Accounts.Defs.{
  Secrets, clean_expired, dev_from_cookie, device_from_bearer, is_live, session_user, token_device,
  token_hash_of,
}
use ucrashreport_server.Base.{
  Bool, Bool-cases, List, Option, Option-cases, [], ap, arith, false, inl, inr, ltb, none, refl,
  some, true, ℕ, ◌∷◌, ◌≡◌, ◌≤◌,
}
use ucrashreport_server.Store.{Db, DevUser, Token, delete_rows}
use ucrashreport_server.Store.Lookup.{select_row-delete}
use ucrashreport_server.Text.{Text, codes, strip_prefix}
use mathlib.Core.Option

session_user-delete :
    (users : List DevUser) (p q : Token → Bool) (ss : List Token)
    → ((s : Token) → p s ≡ true → q s ≡ false)
    → session_user users p (delete_rows q ss) ≡ session_user users p ss
unfolding session_user
session_user-delete users p q [] h = refl
session_user-delete users p q (s ∷ ss) h = elim (Bool-cases (p s)) [
  | inl e ↦ rw (h s e, e, session_user-delete users p q ss h)
  | inr e ↦ rw e (ground (arith, session_user-delete users p q ss h))
]

live_not_expired :
    (hash : Text) (now now' : ℕ)
    → now ≤ now'
    → (t : Token) → is_live hash now' t ≡ true
    → ltb t.expires now ≡ false
live_not_expired hash now now' h t live = ground arith

cookie-unseen :
    (secrets : Secrets) (now now' : ℕ) (db : Db) (cookie : Option Text)
    → now ≤ now'
    → dev_from_cookie secrets now' (clean_expired now db) cookie
      ≡ dev_from_cookie secrets now' db cookie
unfolding dev_from_cookie clean_expired
cookie-unseen secrets now now' db none h = refl
cookie-unseen secrets now now' db (some c) h =
    session_user-delete db.users _ _ db.dev_sessions
      (live_not_expired (token_hash_of secrets c) now now' h)

token-unseen :
    (secrets : Secrets) (now now' : ℕ) (db : Db) (token : Text)
    → now ≤ now'
    → token_device secrets now' (clean_expired now db) token ≡ token_device secrets now' db token
unfolding token_device clean_expired
token-unseen secrets now now' db token h = ap (Option.map (λ t. t.owner)) (
    select_row-delete _ _ db.device_tokens
      (live_not_expired (token_hash_of secrets token) now now' h))

header-unseen :
    (secrets : Secrets) (now now' : ℕ) (db : Db) (header : Option Text)
    → now ≤ now'
    → device_from_bearer secrets now' (clean_expired now db) header
      ≡ device_from_bearer secrets now' db header
unfolding device_from_bearer
header-unseen secrets now now' db none h = refl
header-unseen secrets now now' db (some v) h =
    elim (Option-cases (strip_prefix v (codes "Bearer "))) [
      | inl e ↦ rw (e, device_from_bearer)
      | inr (token, e) ↦ rw (e, device_from_bearer) (token-unseen secrets now now' db token h)
    ]

-- From the time of a cleanup on, no session cookie and no bearer token is answered differently.
pub clean_expired-unseen :
    (secrets : Secrets) (now now' : ℕ) (db : Db) (cookie header : Option Text)
    → now ≤ now'
    → (dev_from_cookie secrets now' (clean_expired now db) cookie
        ≡ dev_from_cookie secrets now' db cookie)
      × (device_from_bearer secrets now' (clean_expired now db) header
          ≡ device_from_bearer secrets now' db header)
clean_expired-unseen secrets now now' db cookie header h =
    (cookie-unseen secrets now now' db cookie h, header-unseen secrets now now' db header h)
