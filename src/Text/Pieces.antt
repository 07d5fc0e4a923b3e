-- ===== src/Text/Pieces.antt =====
-- Laws of `extend_first`, by which the splits put a character in front of their first piece.
use ucrashreport_server.Base.{List, [], false, is_empty, refl, ℕ, ◌++◌, ◌∷◌, ◌≡◌}
use ucrashreport_server.Text.Chars.{Text}
use ucrashreport_server.Text.Lines.{extend_first}

pub extend_first-append :
    (c : ℕ) (xs ys : List Text)
    → is_empty xs ≡ false
    → extend_first c (xs ++ ys) ≡ extend_first c xs ++ ys
extend_first-append c [] ys h = cc
extend_first-append c (x ∷ xs) ys h = refl

pub is_empty-extend_first : (c : ℕ) (xs : List Text) → is_empty (extend_first c xs) ≡ false
is_empty-extend_first c [] = refl
is_empty-extend_first c (x ∷ xs) = refl
