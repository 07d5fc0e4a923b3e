-- ===== src/Text/Before.antt =====
-- A text up to the earliest match of any of several patterns, as the reference for truncations
-- made one pattern after another, and its laws for patterns led by a mark.
use ucrashreport_server.Base.{
  All, Bool, Bool-cases, List, [], any, ap, ap₂, arith, false, if◌then◌else◌, inl, inr, refl, true,
  ℕ, ◌&&◌, ◌++◌, ◌==◌, ◌||◌, ◌∙◌, ◌∷◌, ◌≡◌,
}
use ucrashreport_server.Text.Chars.{Text}
use ucrashreport_server.Text.Search.{find, starts_with, truncate_at}

-- Some pattern matches here.
abbrev pub any_starts : List Text → Text → Bool
any_starts ps t = any (λ p. starts_with t p) ps

unfoldable pub before : List Text → Text → Text
before ps [] = []
before ps (c ∷ t) = if any_starts ps (c ∷ t) then [] else c ∷ before ps t

truncate_at-cons :
    (p : Text) (c : ℕ) (t : Text)
    → truncate_at p (c ∷ t) ≡ (if starts_with (c ∷ t) p then [] else c ∷ truncate_at p t)
unfolding truncate_at find
truncate_at-cons p c t = ground arith

module _ (lead : ℕ → Bool) where
  -- The pattern begins with a leading character and has no other.
  abbrev pub IsMark : Text → Type 0
  IsMark [] = ⊥
  IsMark (d ∷ r) = (lead d ≡ true) × (any lead r ≡ false)

  -- Where the text goes on with a leading character, a match of the rest of a mark stops there.
  starts_with-until :
      (u : Text) (l : ℕ) (v r : Text)
      → lead l ≡ true
      → any lead r ≡ false
      → starts_with (u ++ l ∷ v) r ≡ starts_with u r
  unfolding starts_with
  starts_with-until u l v [] hl hr = refl
  starts_with-until [] l v (y ∷ r) hl hr = ground arith
  starts_with-until (x ∷ u) l v (y ∷ r) hl hr = ground (arith, starts_with-until u l v r hl)

  -- At a mark's own first character as well, unless the text before is used up.
  starts_with_mark-until :
      (c : ℕ) (u : Text) (l : ℕ) (v p : Text)
      → lead l ≡ true
      → IsMark p
      → starts_with (c ∷ (u ++ l ∷ v)) p ≡ starts_with (c ∷ u) p
  unfolding starts_with
  starts_with_mark-until c u l v [] hl hp = absurd hp
  starts_with_mark-until c u l v (d ∷ r) hl hp =
      ap (λ b. c == d && b) (starts_with-until u l v r hl hp.1)

  any_starts-until :
      (c : ℕ) (u : Text) (l : ℕ) (v : Text) (ps : List Text)
      → lead l ≡ true
      → All IsMark ps
      → any_starts ps (c ∷ (u ++ l ∷ v)) ≡ any_starts ps (c ∷ u)
  any_starts-until c u l v [] hl hp = refl
  any_starts-until c u l v (p ∷ ps) hl hp =
      rw (starts_with_mark-until c u l v p hl hp.0, any_starts-until c u l v ps hl hp.1)

  -- What follows the first match does not matter.
  pub before-until :
      (ps : List Text) (u : Text) (l : ℕ) (v : Text)
      → lead l ≡ true
      → All IsMark ps
      → any_starts ps (l ∷ v) ≡ true
      → before ps (u ++ l ∷ v) ≡ before ps u
  unfolding before
  before-until ps [] l v hl hp m = rw m
  before-until ps (c ∷ u) l v hl hp m =
      rw (any_starts-until c u l v ps hl hp, before-until ps u l v hl hp m)

  -- A mark's first character leads it.
  starts_with-lead : (x : ℕ) (t p : Text) → IsMark p → starts_with (x ∷ t) p ≡ true → lead x ≡ true
  unfolding starts_with
  starts_with-lead x t [] hp h = absurd hp
  starts_with-lead x t (d ∷ r) hp h = ground arith

  pub any_starts-lead :
      (x : ℕ) (t : Text) (ps : List Text)
      → All IsMark ps
      → any_starts ps (x ∷ t) ≡ true
      → lead x ≡ true
  any_starts-lead x t [] hp h = cc
  any_starts-lead x t (p ∷ ps) hp h =
      ground (arith, starts_with-lead x t p hp.0, any_starts-lead x t ps hp.1)

  -- Cutting the text cuts no match of the rest of a mark.
  starts_with-before :
      (ps : List Text) (t r : Text)
      → All IsMark ps
      → any lead r ≡ false
      → starts_with (before ps t) r ≡ starts_with t r
  unfolding before starts_with
  starts_with-before ps t [] hp hr = refl
  starts_with-before ps [] (y ∷ r) hp hr = refl
  starts_with-before ps (x ∷ t) (y ∷ r) hp hr = elim (Bool-cases (any_starts ps (x ∷ t))) [
    | inl cut ↦ rw cut (ground (arith, any_starts-lead x t ps hp cut))
    | inr whole ↦ rw whole (ground (arith, starts_with-before ps t r hp))
  ]

  any_starts-before :
      (ps qs : List Text) (c : ℕ) (t : Text)
      → All IsMark ps
      → All IsMark qs
      → any_starts qs (c ∷ before ps t) ≡ any_starts qs (c ∷ t)
  unfolding starts_with
  any_starts-before ps [] c t hp hq = refl
  any_starts-before ps ([] ∷ qs) c t hp hq = absurd hq.0
  any_starts-before ps ((d ∷ r) ∷ qs) c t hp hq =
      ap₂ (λ a b. c == d && a || b) (starts_with-before ps t r hp hq.0.1)
        (any_starts-before ps qs c t hp hq.1)

  any_starts-append :
      (ps qs : List Text) (t : Text)
      → any_starts (ps ++ qs) t ≡ (any_starts ps t || any_starts qs t)
  any_starts-append [] qs t = refl
  any_starts-append (p ∷ ps) qs t = ground (arith, any_starts-append ps qs t)

  -- Two cuts, one after the other, are one cut at the earliest match of either set.
  pub before-before :
      (ps qs : List Text) (t : Text)
      → All IsMark ps
      → All IsMark qs
      → before qs (before ps t) ≡ before (ps ++ qs) t
  unfolding before
  before-before ps qs [] hp hq = refl
  before-before ps qs (c ∷ t) hp hq = elim (Bool-cases (any_starts ps (c ∷ t))) [
    | inl cut ↦ rw (any_starts-append, cut)
    | inr whole ↦
        rw
          (any_starts-append, whole, any_starts-before ps qs c t hp hq, before-before ps qs t hp hq)
  ]

  -- One truncation is a cut by one pattern.
  pub truncate_at-before : (p t : Text) → IsMark p → truncate_at p t ≡ before (p ∷ []) t
  unfolding before truncate_at find starts_with
  truncate_at-before [] t hp = absurd hp
  truncate_at-before (d ∷ r) [] hp = refl
  truncate_at-before (d ∷ r) (c ∷ t) hp =
      truncate_at-cons (d ∷ r) c t ∙ rw (truncate_at-before (d ∷ r) t hp) (ground arith)
