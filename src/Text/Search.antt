-- ===== src/Text/Search.antt =====
-- Searching a text for a pattern: `starts_with`, `find`, `contains`, `split_once` and the like.
use ucrashreport_server.Base.{
  Bool, Option, [], drop, false, if◌then◌else◌, is_some, length, none, reverse, some, suc, take,
  true, ℕ, ◌&&◌, ◌==◌, ◌∷◌,
}
use ucrashreport_server.Text.Chars.{Text}
use mathlib.Core.Option

unfoldable pub starts_with : Text → Text → Bool
starts_with t [] = true
starts_with [] (_ ∷ _) = false
starts_with (c ∷ t) (d ∷ p) = c == d && starts_with t p

unfoldable pub ends_with : Text → Text → Bool
unfolding starts_with
ends_with t p = starts_with (reverse t) (reverse p)

-- The position of the first match.
unfoldable pub find : Text → Text → Option ℕ
find [] p = if starts_with [] p then some 0 else none
find (c ∷ t) p = if starts_with (c ∷ t) p then some 0 else Option.map suc (find t p)

unfoldable pub contains : Text → Text → Bool
contains t p = is_some (find t p)

-- `str::strip_prefix`
unfoldable pub strip_prefix : Text → Text → Option Text
strip_prefix t p = if starts_with t p then some (drop (length p) t) else none

-- The texts before and after the first match.
unfoldable pub split_once : Text → Text → Option (Text × Text)
split_once [] p = if starts_with [] p then some ([], []) else none
split_once (c ∷ t) p =
    if starts_with (c ∷ t) p
    then some ([], drop (length p) (c ∷ t))
    else Option.map (λ (a, b). (c ∷ a, b)) (split_once t p)

-- The texts before and after the last match.
unfoldable pub rsplit_once : Text → Text → Option (Text × Text)
rsplit_once [] p = if starts_with [] p then some ([], []) else none
rsplit_once (c ∷ t) p = elim (rsplit_once t p) [
  | some (a, b) ↦ some (c ∷ a, b)
  | none ↦ if starts_with (c ∷ t) p then some ([], drop (length p) (c ∷ t)) else none
]

-- `&s[..pos]` at the first match of `p`, or all of the text.
unfoldable pub truncate_at : Text → Text → Text
unfolding find
truncate_at p t = elim (find t p) [ none ↦ t | some pos ↦ take pos t ]
