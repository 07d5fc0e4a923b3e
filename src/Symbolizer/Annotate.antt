-- ===== src/Symbolizer/Annotate.antt =====
-- `annotate` of crates/ucrs-decoder/src/symbols.rs.
use ucrashreport_server.Base.{List, Option, [], none, some, ℕ, ◌++◌, ◌∷◌}
use ucrashreport_server.Pool.{Files, PoolLibs}
use ucrashreport_server.Scrub.{Regex, Segment, between, matched}
use ucrashreport_server.Symbolizer.Binary.{SymbolLibs}
use ucrashreport_server.Symbolizer.Modules.{Symbolizer, resolve_frame}
use ucrashreport_server.Text.{Text, codes, lines, parse_u64, trim_start_matches}

abbrev pub frame_re : Text
frame_re = codes "([A-Za-z0-9_.]+)\\+(0x[0-9a-fA-F]+)/0x[0-9a-fA-F]+(?:\\s+\\[([A-Za-z0-9_-]+)\\])?"

-- `captures`: the groups of the first match
unfoldable pub first_match : List Segment → Option (List (Option Text))
first_match [] = none
first_match (between _ ∷ ss) = first_match ss
first_match (matched _ groups ∷ ss) = some groups

pub record Captured : Type 0 where
  pub symbol : Text
  pub offset : ℕ
  pub module_name : Option Text

-- The offset, 0 where it is too large
unfoldable pub frame_offset : Text → ℕ
frame_offset digits = elim (parse_u64 16 (trim_start_matches (codes "0x") digits)) [
  | none ↦ 0
  | some n ↦ n
]

-- The three groups; the pattern has the first two of them in every match.
unfoldable pub captured_frame : Option (List (Option Text)) → Option Captured
unfolding frame_offset
captured_frame (some (some symbol ∷ some digits ∷ name ∷ [])) =
    some (record { symbol = symbol; offset = frame_offset digits; module_name = name })
captured_frame _ = none

abbrev pub location_note : Option Text → Text
location_note none = []
location_note (some loc) = codes " (" ++ (loc ++ codes ")")

module _ (pool_libs : PoolLibs) (libs : SymbolLibs) (regex : Regex) (files : Files) where
  -- The location of a line, if it has a frame that is found.
  abbrev pub line_location : Option Captured → Symbolizer → Option Text × Symbolizer
  line_location none s = (none, s)
  line_location (some c) s = resolve_frame pool_libs libs files c.symbol c.offset c.module_name s

  unfoldable pub annotate_line : Text → Symbolizer → Text × Symbolizer
  unfolding resolve_frame captured_frame first_match
  annotate_line line s =
      let (loc, s') = line_location (captured_frame (first_match (regex frame_re line))) s in
      (line ++ (location_note loc ++ codes "\n"), s')

  unfoldable pub annotate_loop : List Text → Symbolizer → Text × Symbolizer
  unfolding annotate_line
  annotate_loop [] s = ([], s)
  annotate_loop (line ∷ rest) s =
      let (out, s1) = annotate_line line s in
      let (more, s2) = annotate_loop rest s1 in (out ++ more, s2)

  unfoldable pub annotate : Text → Symbolizer → Text × Symbolizer
  unfolding annotate_loop
  annotate text s = annotate_loop (lines text) s
