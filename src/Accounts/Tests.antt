-- ===== src/Accounts/Tests.antt =====
-- Runs of crates/ucrs-server/src/auth.rs, with a witness for each theorem.
use ucrashreport_server.Accounts.Cleanup.{clean_expired-unseen}
use ucrashreport_server.Accounts.Defs.{
  Secrets, clean_expired, create_user, dev_from_cookie, device_from_bearer, hash_password,
  insert_token, insert_user, login, login_row, logout, open_session, session_user, token_device,
  token_hash_of, verify_password,
}
use ucrashreport_server.Base.{[], arith, none, refl, some, ◌∷◌, ◌≡◌}
use ucrashreport_server.Base.Results.{ok}
use ucrashreport_server.Store.{Db, DevUser}
use ucrashreport_server.Text.{codes, text_eq, text_runs}

-- A hash that is the text itself.
abbrev plain_secrets : Secrets
plain_secrets = record {
  token_digest = λ t. t;
  argon2_hash = λ salt password. some password;
  argon2_verify = λ password hash. text_eq password hash;
}

unfoldable account_runs : Unit {0}
unfolding login login_row open_session insert_token token_hash_of verify_password create_user
    insert_user hash_password dev_from_cookie session_user clean_expired logout device_from_bearer
    token_device text_runs
account_runs = tt

abbrev new_account : DevUser
new_account = record { id = codes "u"; login = codes "ann"; pw_hash = codes "pw" }

abbrev account_db : Db
account_db = record {
  devices = [];
  reports = [];
  jobs = [];
  groups = [];
  users = new_account ∷ [];
  device_tokens = [];
  dev_sessions = [];
}

abbrev session_db : Db
session_db = record account_db {
  dev_sessions = record { token_hash = codes "c"; owner = codes "u"; expires = 604805 } ∷ [];
}

created :
    create_user plain_secrets
      (codes "0123456789012345678901")
      (codes "salt")
      (codes "v")
      account_db
      (codes "bob")
    ≡ ok (
      codes "01234567890123456789",
      record account_db {
        users =
            new_account
            ∷ record { id = codes "v"; login = codes "bob"; pw_hash = codes "01234567890123456789" }
            ∷ [];
      },
    )
unfolding account_runs
created = refl

logged_in :
    login plain_secrets (codes "c") 5 account_db (codes "ann") (codes "pw")
    ≡ ok (some (codes "c"), session_db)
unfolding account_runs
logged_in = refl

wrong_password :
    login plain_secrets (codes "c") 5 account_db (codes "ann") (codes "xx") ≡ ok (none, account_db)
unfolding account_runs
wrong_password = refl

clean_expired-unseen_example :
    (dev_from_cookie plain_secrets 9 (clean_expired 8 session_db) (some (codes "c"))
      ≡ dev_from_cookie plain_secrets 9 session_db (some (codes "c")))
    × (device_from_bearer plain_secrets 9 (clean_expired 8 session_db) none
        ≡ device_from_bearer plain_secrets 9 session_db none)
clean_expired-unseen_example =
    clean_expired-unseen plain_secrets 8 9 session_db (some (codes "c")) none (omega arith)
