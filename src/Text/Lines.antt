-- ===== src/Text/Lines.antt =====
-- Splitting and joining: `lines`, `split_whitespace`, `join`.
use ucrashreport_server.Base.{Bool, List, [], false, if◌then◌else◌, not, ℕ, ◌&&◌, ◌++◌, ◌==◌, ◌∷◌}
use ucrashreport_server.Text.Chars.{Text, is_whitespace}

-- Puts a character in front of the first piece.
abbrev pub extend_first : ℕ → List Text → List Text
extend_first c [] = (c ∷ []) ∷ []
extend_first c (w ∷ ws) = (c ∷ w) ∷ ws

abbrev pub starts_by : (ℕ → Bool) → Text → Bool
starts_by p [] = false
starts_by p (c ∷ _) = p c

-- A line ends at `\n` or `\r\n`; the last line may lack its end.
unfoldable pub lines : Text → List Text
lines [] = []
lines (c ∷ t) =
    let rest = lines t in
    if c == b'\n'
    then [] ∷ rest
    else if c == b'\r' && starts_by (λ d. d == b'\n') t
    then rest
    else extend_first c rest

unfoldable pub split_whitespace : Text → List Text
split_whitespace [] = []
split_whitespace (c ∷ t) =
    let rest = split_whitespace t in
    if is_whitespace c
    then rest
    else if starts_by (λ d. not (is_whitespace d)) t
    then extend_first c rest
    else (c ∷ []) ∷ rest

-- `[Text]::join`
unfoldable pub join : Text → List Text → Text
join sep [] = []
join sep (w ∷ []) = w
join sep (w ∷ v ∷ ws) = w ++ (sep ++ join sep (v ∷ ws))
