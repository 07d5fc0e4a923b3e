-- ===== src/Text/Trim.antt =====
-- Trimming: `trim`, `trim_start`, `trim_end` and the `_matches` variants.
use ucrashreport_server.Base.{
  Bool, [], drop_while, if◌then◌else◌, is_empty, length, suc, zero, ℕ, ◌&&◌, ◌-◌, ◌∷◌,
}
use ucrashreport_server.Text.Chars.{Text, is_whitespace}
use ucrashreport_server.Text.Search.{starts_with}

-- Drops the characters at the end that pass the test.
unfoldable pub trim_end_by : (ℕ → Bool) → Text → Text
trim_end_by p [] = []
trim_end_by p (c ∷ t) = let r = trim_end_by p t in if p c && is_empty r then [] else c ∷ r

unfoldable pub trim_start : Text → Text
trim_start = drop_while is_whitespace

unfoldable pub trim_end : Text → Text
trim_end = trim_end_by is_whitespace

unfoldable pub trim : Text → Text
unfolding trim_start trim_end
trim t = trim_end (trim_start t)

-- `trim_matches` with a test on characters
unfoldable pub trim_matches : (ℕ → Bool) → Text → Text
trim_matches p t = trim_end_by p (drop_while p t)

-- `k` more characters belong to a match.
strip_matches : ℕ → Text → Text → Text
strip_matches k p [] = []
strip_matches (suc k) p (c ∷ t) = strip_matches k p t
strip_matches zero p (c ∷ t) =
    let r = strip_matches (length p - 1) p t in if starts_with (c ∷ t) p then r else c ∷ t

-- `trim_start_matches` with a pattern that is not empty
unfoldable pub trim_start_matches : Text → Text → Text
unfolding strip_matches
trim_start_matches p t = strip_matches 0 p t
