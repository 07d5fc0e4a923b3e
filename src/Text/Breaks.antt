-- ===== src/Text/Breaks.antt =====
-- Laws of `lines`: a line feed ends a line, whatever follows.
use ucrashreport_server.Base.{
  Bool, [], arith, false, if◌then◌else◌, is_empty, refl, ℕ, ◌&&◌, ◌++◌, ◌==◌, ◌∷◌, ◌≡◌,
}
use ucrashreport_server.Text.Chars.{Text}
use ucrashreport_server.Text.Lines.{extend_first, lines, starts_by}
use ucrashreport_server.Text.Pieces.{extend_first-append, is_empty-extend_first}

abbrev starts_line_feed : Text → Bool
starts_line_feed = starts_by (λ d. d == b'\n')

lines-cons :
    (c : ℕ) (t : Text)
    → lines (c ∷ t) ≡ (
        if c == b'\n'
        then [] ∷ lines t
        else if c == b'\r' && starts_line_feed t
        then lines t
        else extend_first c (lines t))
unfolding lines
lines-cons c t = refl

is_empty-lines : (u : Text) → is_empty (lines (u ++ b'\n' ∷ [])) ≡ false
is_empty-lines [] = unfold lines in refl
is_empty-lines (c ∷ u) =
    rw lines-cons
      (ground (arith, is_empty-lines u, is_empty-extend_first c (lines (u ++ b'\n' ∷ []))))

starts_line_feed-append :
    (u v w : Text) → starts_line_feed (u ++ b'\n' ∷ v) ≡ starts_line_feed (u ++ b'\n' ∷ w)
starts_line_feed-append [] v w = refl
starts_line_feed-append (c ∷ u) v w = refl

pub lines-append : (u v : Text) → lines (u ++ b'\n' ∷ v) ≡ lines (u ++ b'\n' ∷ []) ++ lines v
lines-append [] v = unfold lines in refl
lines-append (c ∷ u) v =
    rw
      (
        lines-cons c (u ++ b'\n' ∷ v),
        lines-cons c (u ++ b'\n' ∷ []),
        starts_line_feed-append u v [],
        lines-append u v,
      )
      (ground (arith, is_empty-lines u, extend_first-append c (lines (u ++ b'\n' ∷ [])) (lines v)))
