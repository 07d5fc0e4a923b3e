-- ===== src/Text/Splits.antt =====
-- Laws of `split_once` for a pattern whose first character does not stand in the text before it.
use ucrashreport_server.Base.{
  [], any, arith, drop-length, false, none, refl, some, true, ℕ, ◌++◌, ◌==◌, ◌∷◌, ◌≡◌,
}
use ucrashreport_server.Text.Chars.{Text}
use ucrashreport_server.Text.Search.{split_once, starts_with}

pub starts_with-append : (p v : Text) → starts_with (p ++ v) p ≡ true
unfolding starts_with
starts_with-append [] v = refl
starts_with-append (d ∷ p) v = ground (arith, starts_with-append p v)

pub split_once-append :
    (u : Text) (d : ℕ) (p v : Text)
    → any (λ c. c == d) u ≡ false
    → split_once (u ++ ((d ∷ p) ++ v)) (d ∷ p) ≡ some (u, v)
unfolding split_once starts_with
split_once-append [] d p v h = rw (starts_with-append (d ∷ p) v, drop-length p v)
split_once-append (c ∷ u) d p v h = ground (arith, split_once-append u d p v)

-- Without its first character the pattern does not match.
pub split_once-none :
    (u : Text) (d : ℕ) (p : Text) → any (λ c. c == d) u ≡ false → split_once u (d ∷ p) ≡ none
unfolding split_once starts_with
split_once-none [] d p h = refl
split_once-none (c ∷ u) d p h = ground (arith, split_once-none u d p)
