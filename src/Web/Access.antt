-- ===== src/Web/Access.antt =====
-- Signing in to the dashboard and out of it, crates/ucrs-server/src/web.rs with auth.rs.
use ucrashreport_server.Accounts.{
  Failure, Secrets, dev_from_cookie, login, session_ttl_secs, verify_password,
}
use ucrashreport_server.Accounts.Sessions.{UniqueIds, login-dev_from_cookie, logout-dev_from_cookie}
use ucrashreport_server.Base.{
  Bool-cases, Option, ap, arith, if◌then◌else◌, inl, inr, ltb, none, refl, some, sym, true, ℕ, ◌+◌,
  ◌∙◌, ◌≡◌,
}
use ucrashreport_server.Base.Results.{Result, err, ok}
use ucrashreport_server.Config.{Config}
use ucrashreport_server.Server.{World}
use ucrashreport_server.Store.{Db, DevUser}
use ucrashreport_server.Text.{Text, codes}
use ucrashreport_server.Web.Pages.{login_answer, login_post, logout_page, with_dev}
use ucrashreport_server.Web.Templates.{Answer, redirect_to, signed_in}

login_answer-signed_in :
    (name token location : Text) (r : Result Failure (Option Text × Db)) (w w' : World)
    → login_answer name r w ≡ (signed_in token location, w')
    → (db : Db) × (r ≡ ok (some token, db)) × (w' ≡ record w { db = db })
unfolding login_answer
login_answer-signed_in name token location (err e) w w' h = cc
login_answer-signed_in name token location (ok (none, db)) w w' h = cc
login_answer-signed_in name token location (ok (some t, db)) w w' h =
    let same : t ≡ token = ground (arith, ap (λ p. p.0) h) in
    (db, ap (λ k. ok (some k, db)) same, ap (λ p. p.1) (sym h))

module _ (cfg : Config) (secrets : Secrets) (format : ℕ → Option Text) where
  abbrev to_login : World → Answer × World
  to_login w = (redirect_to (codes "/login"), w)

  -- After a sign-in, the pages for developers open with the cookie that it sets, for the account of
  -- the login and password, until its time is over; from then on they lead to the login page. The
  -- accounts have distinct ids.
  pub login_post-with_dev :
      (secret : Text) (now now' : ℕ) (name password token location : Text) (w w' : World)
      (handler : DevUser → World → Answer × World)
      → UniqueIds w.db.users
      → login_post cfg secrets format secret now name password w ≡ (signed_in token location, w')
      → (user : DevUser) × (user.login ≡ name)
        × (verify_password secrets password user.pw_hash ≡ true)
        × (with_dev cfg secrets format now' (some token) handler w'
            ≡ (if ltb now' (now + session_ttl_secs) then handler user w' else to_login w'))
  unfolding login_post with_dev
  login_post-with_dev secret now now' name password token location w w' handler unique h =
      let (db, logged_in, is_after) =
        login_answer-signed_in cfg.instance_name token location
          (login secrets secret now w.db name password) w w' h in
      let (user, named, verified, cookie) =
        login-dev_from_cookie secrets secret now now' w.db name password token db unique
          logged_in in
      let stands : dev_from_cookie secrets now' w'.db (some token)
          ≡ (if ltb now' (now + session_ttl_secs) then some user else none) =
        ap (λ v. dev_from_cookie secrets now' v.db (some token)) is_after ∙ cookie in
      (
        user,
        named,
        verified,
        elim (Bool-cases (ltb now' (now + session_ttl_secs))) [
          | inl t ↦ rw t (rw (with_dev, rw t at stands) refl)
          | inr t ↦ rw t (rw (with_dev, rw t at stands) refl)
        ],
      )

  -- After a sign-out the pages for developers lead the cookie to the login page, at any time.
  pub logout_page-with_dev :
      (now : ℕ) (cookie : Text) (w : World) (handler : DevUser → World → Answer × World)
      → with_dev cfg secrets format now
          (some cookie)
          handler
          (logout_page cfg secrets format (some cookie) w).1
        ≡ to_login (logout_page cfg secrets format (some cookie) w).1
  unfolding logout_page with_dev
  logout_page-with_dev now cookie w handler =
      rw (with_dev, logout-dev_from_cookie secrets now w.db cookie) refl
