-- ===== src/Signature/Line.antt =====
-- One line of the scan of `parse_oops`, crates/ucrs-common/src/signature.rs: the marker test and
-- then the trace tests.
use ucrashreport_server.Base.{Option-cases, arith, false, if◌then◌else◌, inl, inr, refl, true, ◌≡◌}
use ucrashreport_server.Signature.Oops.{
  Scan, frame_of, has_marker, note_exception, oops_step, trace_line,
}
use ucrashreport_server.Signature.Prefix.{strip_printk_prefix}
use ucrashreport_server.Text.{Text}

abbrev pub IsMarked : Text → Type 0
IsMarked raw = has_marker (strip_printk_prefix raw) ≡ true

abbrev pub Unmarked : Text → Type 0
Unmarked raw = has_marker (strip_printk_prefix raw) ≡ false

pub trace_line-exception : (line : Text) (s : Scan) → (trace_line line s).exception ≡ s.exception
unfolding trace_line
trace_line-exception line s = elim (Option-cases (frame_of line)) [
  | inl e ↦ rw e (ground arith)
  | inr (f, e) ↦ rw e (ground arith)
]

-- The scan that goes on to the trace tests of a line.
unfoldable pub noted : Text → Scan → Scan
noted line s = if has_marker line then note_exception line s else s

pub oops_step-noted :
    (s : Scan) (raw : Text)
    → oops_step s raw ≡ trace_line (strip_printk_prefix raw) (noted (strip_printk_prefix raw) s)
unfolding oops_step noted
oops_step-noted s raw = refl
