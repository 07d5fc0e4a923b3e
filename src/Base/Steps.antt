-- ===== src/Base/Steps.antt =====
-- Fallible code on a state: it keeps what was done before an early return. A step of the source that
-- is `?` on a result fails the rest.
use mathlib.Core.Bool.{Bool, true, false}
use mathlib.Core.Option.{Option, none, some}
use mathlib.Core.Path.{◌≡◌, refl}
use ucrashreport_server.Base.Results.{Result, err, ok}

abbrev pub Step : Type 0 → Type 0 → Type 0 → Type 0
Step S E A = S → Result E A × S

module _ {S E A : Type 0} where
  abbrev pub done_with : A → Step S E A
  done_with a s = (ok a, s)

  abbrev pub fail_with : E → Step S E A
  fail_with e s = (err e, s)

  abbrev pub asks : (S → A) → Step S E A
  asks f s = (ok (f s), s)

  abbrev pub given : Result E A → Step S E A
  given r s = (r, s)

  abbrev pub some_or : Option A → E → Step S E A
  some_or none e s = (err e, s)
  some_or (some a) e s = (ok a, s)

module _ {S E : Type 0} where
  abbrev pub puts : (S → S) → Step S E (Unit {0})
  puts f s = (ok tt, f s)

  abbrev pub fails_if : Bool → E → Step S E (Unit {0})
  fails_if true e s = (err e, s)
  fails_if false e s = (ok tt, s)

module _ {S E A B : Type 0} where
  abbrev pub continue : (A → Step S E B) → Result E A × S → Result E B × S
  continue f (ok a, s) = f a s
  continue f (err e, s) = (err e, s)

infixl 5 ◌>>=◌ ◌>>◌
abbrev pub ◌>>=◌ : {S E A B : Type 0} → Step S E A → (A → Step S E B) → Step S E B
◌>>=◌ m f s = continue f (m s)

abbrev pub ◌>>◌ : {S E B : Type 0} → Step S E (Unit {0}) → Step S E B → Step S E B
m >> k = m >>= λ _. k

-- A sequence succeeds only where both parts do.
pub continue-ok :
    {S E A B : Type 0} (f : A → Step S E B) (c : Result E A × S) (b : B) (s : S)
    → continue f c ≡ (ok b, s)
    → (a : A) × (s' : S) × (c ≡ (ok a, s')) × (f a s' ≡ (ok b, s))
continue-ok f (ok a, s') b s h = (a, s', refl, h)
continue-ok f (err e, s') b s h = cc
