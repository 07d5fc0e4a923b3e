-- ===== src/Text/Words.antt =====
-- Laws of `split_whitespace`: a space separates, trimming does not matter, a word is itself.
use ucrashreport_server.Base.{
  Bool, [], any, arith, drop_while, false, if◌then◌else◌, is_empty, not, refl, true, ℕ, ◌++◌, ◌∙◌,
  ◌∷◌, ◌≡◌, ◌≢◌,
}
use ucrashreport_server.Text.Chars.{Text, is_whitespace}
use ucrashreport_server.Text.Lines.{extend_first, split_whitespace}
use ucrashreport_server.Text.Pieces.{extend_first-append, is_empty-extend_first}
use ucrashreport_server.Text.Trim.{trim, trim_end_by}

abbrev pub starts_word : Text → Bool
starts_word [] = false
starts_word (c ∷ _) = not (is_whitespace c)

split_whitespace-cons :
    (c : ℕ) (t : Text)
    → split_whitespace (c ∷ t) ≡ (
        if is_whitespace c
        then split_whitespace t
        else if starts_word t
        then extend_first c (split_whitespace t)
        else (c ∷ []) ∷ split_whitespace t)
unfolding split_whitespace
split_whitespace-cons c [] = refl
split_whitespace-cons c (d ∷ t) = refl

is_empty-split_whitespace :
    (t : Text) → starts_word t ≡ true → is_empty (split_whitespace t) ≡ false
is_empty-split_whitespace [] h = cc
is_empty-split_whitespace (c ∷ t) h =
    rw split_whitespace-cons (ground (arith, is_empty-extend_first c (split_whitespace t)))

starts_word-append_space : (u v : Text) → starts_word (u ++ b' ' ∷ v) ≡ starts_word u
unfolding is_whitespace
starts_word-append_space [] v = refl
starts_word-append_space (c ∷ u) v = refl

-- The words on both sides of a space.
pub split_whitespace-append_space :
    (u v : Text) → split_whitespace (u ++ b' ' ∷ v) ≡ split_whitespace u ++ split_whitespace v
split_whitespace-append_space [] v = unfold split_whitespace is_whitespace in refl
split_whitespace-append_space (c ∷ u) v =
    rw
      (
        split_whitespace-cons c (u ++ b' ' ∷ v),
        split_whitespace-cons c u,
        split_whitespace-append_space u v,
        starts_word-append_space u v,
      )
      (ground (
        arith,
        extend_first-append c (split_whitespace u) (split_whitespace v),
        is_empty-split_whitespace u,
      ))

-- A text without whitespace that is not empty is one word.
abbrev pub IsWord : Text → Type 0
IsWord t = (t ≢ []) × (any is_whitespace t ≡ false)

split_whitespace-word :
    (c : ℕ) (t : Text) → any is_whitespace (c ∷ t) ≡ false → split_whitespace (c ∷ t) ≡ (c ∷ t) ∷ []
split_whitespace-word c [] h = rw split_whitespace-cons (unfold split_whitespace in ground arith)
split_whitespace-word c (d ∷ t) h =
    rw split_whitespace-cons (ground (arith, split_whitespace-word d t))

pub split_whitespace-IsWord : (t : Text) → IsWord t → split_whitespace t ≡ t ∷ []
split_whitespace-IsWord [] h = absurd (h.0 refl)
split_whitespace-IsWord (c ∷ t) h = split_whitespace-word c t h.1

split_whitespace-trim_start :
    (t : Text) → split_whitespace (drop_while is_whitespace t) ≡ split_whitespace t
split_whitespace-trim_start [] = refl
split_whitespace-trim_start (c ∷ t) =
    rw split_whitespace-cons
      (ground (arith, split_whitespace-trim_start t, split_whitespace-cons c t))

starts_word-trim_end : (t : Text) → starts_word (trim_end_by is_whitespace t) ≡ starts_word t
unfolding trim_end_by
starts_word-trim_end [] = refl
starts_word-trim_end (c ∷ t) = ground arith

split_whitespace-trim_end :
    (t : Text) → split_whitespace (trim_end_by is_whitespace t) ≡ split_whitespace t
unfolding trim_end_by
split_whitespace-trim_end [] = refl
split_whitespace-trim_end (c ∷ t) = ground (
  arith,
  split_whitespace-cons c t,
  split_whitespace-cons c (trim_end_by is_whitespace t),
  starts_word-trim_end t,
  split_whitespace-trim_end t,
)

-- Trimming does not change the words.
pub split_whitespace-trim : (t : Text) → split_whitespace (trim t) ≡ split_whitespace t
unfolding trim
split_whitespace-trim t =
    split_whitespace-trim_end (drop_while is_whitespace t) ∙ split_whitespace-trim_start t
