-- ===== src/Signature/Markers.antt =====
-- When `parse_oops` of crates/ucrs-common/src/signature.rs finds a crash at all.
use ucrashreport_server.Base.{All, List, [], arith, false, none, refl, ◌↔◌, ◌∷◌, ◌≡◌}
use ucrashreport_server.Signature.Line.{Unmarked, noted, oops_step-noted, trace_line-exception}
use ucrashreport_server.Signature.Oops.{
  Scan, has_marker, no_scan, note_exception, oops_loop, oops_step, parse_oops, scan_result,
}
use ucrashreport_server.Signature.Prefix.{strip_printk_prefix}
use ucrashreport_server.Text.{Text, lines}

noted-exception :
    (line : Text) (s : Scan)
    → ((noted line s).exception ≡ none) ↔ ((s.exception ≡ none) × (has_marker line ≡ false))
unfolding noted note_exception
noted-exception line s = ground arith

oops_step-exception :
    (s : Scan) (raw : Text)
    → ((oops_step s raw).exception ≡ none) ↔ ((s.exception ≡ none) × Unmarked raw)
oops_step-exception s raw =
    rw (oops_step-noted, trace_line-exception) (noted-exception (strip_printk_prefix raw) s)

oops_loop-exception :
    (ls : List Text) (s : Scan)
    → ((oops_loop s ls).exception ≡ none) ↔ ((s.exception ≡ none) × All Unmarked ls)
unfolding oops_loop
oops_loop-exception [] s = ((λ e. (e, tt)), (λ h. h.0))
oops_loop-exception (raw ∷ ls) s =
    let rest = oops_loop-exception ls (oops_step s raw) in
    let here = oops_step-exception s raw in
    (
      (λ e. ((here.0 (rest.0 e).0).0, ((here.0 (rest.0 e).0).1, (rest.0 e).1))),
      (λ h. rest.1 (here.1 (h.0, h.1.0), h.1.1)),
    )

scan_result-eq-none : (s : Scan) → (scan_result s ≡ none) ↔ (s.exception ≡ none)
scan_result-eq-none s = ground arith

-- The parser answers nothing exactly when no line of the text carries a marker.
pub parse_oops-eq-none : (text : Text) → (parse_oops text ≡ none) ↔ All Unmarked (lines text)
unfolding parse_oops
parse_oops-eq-none text =
    let loop = oops_loop-exception (lines text) no_scan in
    let result = scan_result-eq-none (oops_loop no_scan (lines text)) in
    ((λ e. (loop.0 (result.0 e)).1), (λ h. result.1 (loop.1 (refl, h))))
