-- ===== src/Server/Runs.antt =====
-- How the handlers of crates/ucrs-server/src/api.rs run: those that only compute, and what a
-- success says of each step.
use ucrashreport_server.Base.{
  Bool, Option, ap, arith, false, inl, inr, none, refl, some, sym, true, ◌∙◌, ◌≡◌, ◌⊎◌,
}
use ucrashreport_server.Base.Results.{Result, err, ok}
use ucrashreport_server.Server.Monad.{
  ApiError, Handler, World, lift, proceed, pure, raise_if, require, require_ok, ◌>>=◌,
}

-- The handler answers without reading or changing the state.
abbrev pub IsReader : {A : Type 0} → Handler A → Type 0
IsReader {A = A} m = (r : Result ApiError A) × ((w : World) → m w ≡ (r, w))

module _ {A : Type 0} where
  pub require-IsReader : (o : Option A) (e : ApiError) → IsReader (require o e)
  require-IsReader none e = (err e, λ w. refl)
  require-IsReader (some a) e = (ok a, λ w. refl)

  pub require_ok-IsReader {ℓ} :
      {E : Type ℓ} (r : Result E A) (e : ApiError) → IsReader (require_ok r e)
  require_ok-IsReader (ok a) e = (ok a, λ w. refl)
  require_ok-IsReader (err f) e = (err e, λ w. refl)

  pub lift-IsReader : (r : Result ApiError A) → IsReader (lift r)
  lift-IsReader (ok a) = (ok a, λ w. refl)
  lift-IsReader (err e) = (err e, λ w. refl)

pub raise_if-IsReader : (b : Bool) (e : ApiError) → IsReader (raise_if b e)
raise_if-IsReader true e = (err e, λ w. refl)
raise_if-IsReader false e = (ok tt, λ w. refl)

pub pure-IsReader : {A : Type 0} (a : A) → IsReader (pure a)
pure-IsReader a = (ok a, λ w. refl)

module _ {A B : Type 0} where
  bind-answer :
      (m : Handler A) (f : A → Handler B) (r : Result ApiError A)
      → ((w : World) → m w ≡ (r, w))
      → ((a : A) → IsReader (f a))
      → IsReader (m >>= f)
  bind-answer m f (ok a) h k = let (s, h') = k a in (s, λ w. ap (proceed f) (h w) ∙ h' w)
  bind-answer m f (err e) h k = (err e, λ w. ap (proceed f) (h w))

  pub bind-IsReader :
      (m : Handler A) (f : A → Handler B)
      → IsReader m
      → ((a : A) → IsReader (f a))
      → IsReader (m >>= f)
  bind-IsReader m f (r, h) k = bind-answer m f r h k

  proceed-eq-ok :
      (f : A → Handler B) (b : B) (w2 : World) (c : Result ApiError A × World)
      → proceed f c ≡ (ok b, w2)
      → (a : A) × (w1 : World) × (c ≡ (ok a, w1)) × (f a w1 ≡ (ok b, w2))
  proceed-eq-ok f b w2 (ok a, w1) h = (a, w1, refl, h)
  proceed-eq-ok f b w2 (err e, w1) h = cc

  -- A sequence succeeds only where both parts do.
  pub bind-succeeds :
      (m : Handler A) (f : A → Handler B) (b : B) (w w2 : World)
      → (m >>= f) w ≡ (ok b, w2)
      → (a : A) × (w1 : World) × (m w ≡ (ok a, w1)) × (f a w1 ≡ (ok b, w2))
  bind-succeeds m f b w w2 h = proceed-eq-ok f b w2 (m w) h

pub ruleset readers = (
  bind-IsReader, require-IsReader, require_ok-IsReader, lift-IsReader, raise_if-IsReader,
  pure-IsReader,
)

module _ {A : Type 0} where
  pub require-succeeds :
      (o : Option A) (e : ApiError) (a : A) (w w' : World)
      → require o e w ≡ (ok a, w')
      → (o ≡ some a) × (w ≡ w')
  require-succeeds none e a w w' h = cc
  require-succeeds (some b) e a w w' h = (ground arith, ground arith)

  pub require_ok-succeeds {ℓ} :
      {E : Type ℓ} (r : Result E A) (e : ApiError) (a : A) (w w' : World)
      → require_ok r e w ≡ (ok a, w')
      → (r ≡ ok a) × (w ≡ w')
  require_ok-succeeds (ok b) e a w w' h = (ground arith, ground arith)
  require_ok-succeeds (err f) e a w w' h = cc

pub raise_if-succeeds :
    (b : Bool) (e : ApiError) (a : Unit {0}) (w w' : World)
    → raise_if b e w ≡ (ok a, w')
    → (b ≡ false) × (w ≡ w')
raise_if-succeeds true e a w w' h = cc
raise_if-succeeds false e a w w' h = (refl, ground arith)

module _ {A B : Type 0} where
  proceed-eq-err :
      (f : A → Handler B) (e : ApiError) (w2 : World) (c : Result ApiError A × World)
      → proceed f c ≡ (err e, w2)
      → (c ≡ (err e, w2)) ⊎ ((a : A) × (w1 : World) × (c ≡ (ok a, w1)) × (f a w1 ≡ (err e, w2)))
  proceed-eq-err f e w2 (ok a, w1) h = inr (a, w1, refl, h)
  proceed-eq-err f e w2 (err d, w1) h = inl (ground arith)

  -- A sequence fails where one part does.
  pub bind-fails :
      (m : Handler A) (f : A → Handler B) (e : ApiError) (w w2 : World)
      → (m >>= f) w ≡ (err e, w2)
      → (m w ≡ (err e, w2)) ⊎ ((a : A) × (w1 : World) × (m w ≡ (ok a, w1)) × (f a w1 ≡ (err e, w2)))
  bind-fails m f e w w2 h = proceed-eq-err f e w2 (m w) h

pub reader-fails :
    {A : Type 0} (m : Handler A)
    → IsReader m
    → (e : ApiError) (w w' : World) → m w ≡ (err e, w')
    → w' ≡ w
reader-fails m (r, reads) e w w' h = ap (λ p. p.1) (sym h ∙ reads w)
