-- ===== src/Text/Trimming.antt =====
-- Laws of trimming: what stands in the middle of a text is not trimmed.
use ucrashreport_server.Base.{Bool, [], ap, arith, drop_while, false, ℕ, ◌++◌, ◌∙◌, ◌∷◌, ◌≡◌}
use ucrashreport_server.Text.Chars.{Text, is_whitespace}
use ucrashreport_server.Text.Trim.{trim, trim_end, trim_end_by, trim_start}

module _ (p : ℕ → Bool) where
  -- A kept character keeps all that follows it.
  pub drop_while-append :
      (u : Text) (x : ℕ) (v : Text)
      → p x ≡ false
      → drop_while p (u ++ x ∷ v) ≡ drop_while p u ++ x ∷ v
  drop_while-append [] x v h = rw h
  drop_while-append (c ∷ u) x v h = ground (arith, drop_while-append u x v h)

  -- A kept character keeps all that stands before it.
  pub trim_end_by-append :
      (u : Text) (x : ℕ) (v : Text)
      → p x ≡ false
      → trim_end_by p (u ++ x ∷ v) ≡ u ++ x ∷ trim_end_by p v
  unfolding trim_end_by
  trim_end_by-append [] x v h = rw h
  trim_end_by-append (c ∷ []) x v h = rw h (ground arith)
  trim_end_by-append (c ∷ d ∷ u) x v h = rw (trim_end_by-append (d ∷ u) x v h) (ground arith)

-- `trim` around a character that is kept.
pub trim-append :
    (u : Text) (x : ℕ) (v : Text)
    → is_whitespace x ≡ false
    → trim (u ++ x ∷ v) ≡ trim_start u ++ x ∷ trim_end v
unfolding trim
trim-append u x v h =
    ap (trim_end_by is_whitespace) (drop_while-append is_whitespace u x v h)
    ∙ trim_end_by-append is_whitespace (drop_while is_whitespace u) x v h
