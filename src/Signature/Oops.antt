-- ===== src/Signature/Oops.antt =====
-- `parse_oops` of crates/ucrs-common/src/signature.rs.
use ucrashreport_server.Base.{
  Bool, List, Option, [], any, false, if◌then◌else◌, is_empty, is_some, leb, length, none, not,
  some, suc, true, zero, ℕ, ◌++◌, ◌==◌, ◌||◌, ◌∷◌,
}
use ucrashreport_server.Signature.Data.{Frame}
use ucrashreport_server.Signature.Prefix.{strip_printk_prefix}
use ucrashreport_server.Text.{
  Text, byte_len, codes, contains, ends_with, lines, rsplit_once, split_once, starts_with, trim,
  trim_end, trim_end_by, trim_start_matches,
}
use mathlib.Core.Option

abbrev pub markers : List Text
markers =
    codes "Oops"
    ∷ codes "kernel BUG at"
    ∷ codes "Internal error:"
    ∷ codes "Unable to handle kernel"
    ∷ codes "Unhandled fault"
    ∷ codes "BUG:"
    ∷ codes "WARNING:"
    ∷ []

-- The variables of the loop.
pub record Scan : Type 0 where
  pub exception : Option Text
  pub frames : List Frame
  pub in_trace : Bool

abbrev pub no_scan : Scan
no_scan = record { exception = none; frames = []; in_trace = false }

-- A line that matches a marker; the loop breaks at the first one.
unfoldable pub has_marker : Text → Bool
has_marker line = any (λ marker. starts_with line marker || contains line marker) markers

-- The body under the marker test: a new section discards the frames of the one before.
unfoldable pub note_exception : Text → Scan → Scan
note_exception line s =
    if not (is_empty s.frames)
    then record s { frames = []; exception = some line }
    else if not (is_some s.exception)
    then record s { exception = some line }
    else s

unfoldable pub starts_trace : Text → Bool
starts_trace line = starts_with line (codes "Call trace:") || starts_with line (codes "Call Trace:")

unfoldable pub ends_trace : Text → Bool
ends_trace line = contains line (codes "---[ end trace") || is_empty line

-- `while line.ends_with(')')`: each round shortens the line, so its length is fuel enough.
unfoldable pub strip_frame_marks : ℕ → Text → Text
strip_frame_marks zero line = line
strip_frame_marks (suc fuel) line = elim (ends_with line (codes ")")) [
  | false ↦ line
  | true ↦ elim (rsplit_once line (codes " (")) [
    | none ↦ line
    | some (rest, marker) ↦ elim (leb (byte_len marker) 3) [
      | true ↦ strip_frame_marks fuel (trim_end rest)
      | false ↦ line
    ]
  ]
]

-- "symbol+0x1a8/0x2d0 [module]"
unfoldable pub split_module : Text → Text × Option Text
split_module line = elim (split_once line (codes " [")) [
  | some (s, m) ↦ (s, some (trim_end_by (λ c. c == b']') m))
  | none ↦ (line, none)
]

-- The frame of a line of a trace; `none` ends the section.
unfoldable pub frame_of : Text → Option Frame
unfolding strip_frame_marks split_module
frame_of line =
    let bare = trim (trim_start_matches (codes "? ") line) in
    let stripped = strip_frame_marks (length bare) bare in
    let (sym_part, module_name) = split_module stripped in
    if contains sym_part (codes "+0x")
    then some (record {
      symbol = sym_part;
      module_name = module_name;
      questionable = starts_with line (codes "? ");
    })
    else none

abbrev pub add_frame : Scan → Option Frame → Scan
add_frame s none = record s { in_trace = false }
add_frame s (some f) = record s { frames = s.frames ++ f ∷ [] }

-- The part of the body from the "Call trace:" test on.
unfoldable pub trace_line : Text → Scan → Scan
trace_line line s =
    if starts_trace line
    then record s { in_trace = true }
    else if not s.in_trace
    then s
    else if ends_trace line
    then record s { in_trace = false }
    else add_frame s (frame_of line)

-- The body of `for raw in text.lines()`.
unfoldable pub oops_step : Scan → Text → Scan
unfolding note_exception trace_line
oops_step s raw =
    let line = strip_printk_prefix raw in
    trace_line line (if has_marker line then note_exception line s else s)

unfoldable pub oops_loop : Scan → List Text → Scan
oops_loop s [] = s
oops_loop s (raw ∷ rest) = oops_loop (oops_step s raw) rest

-- `exception.map(|e| (e, frames))`
abbrev pub scan_result : Scan → Option (Text × List Frame)
scan_result s = Option.map (λ e. (e, s.frames)) s.exception

unfoldable pub parse_oops : Text → Option (Text × List Frame)
unfolding oops_loop
parse_oops text = scan_result (oops_loop no_scan (lines text))
