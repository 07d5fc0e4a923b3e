-- ===== src/Signature/LastSection.antt =====
-- `parse_oops` of crates/ucrs-common/src/signature.rs answers from the last section: what stands
-- before a later crash does not matter.
use ucrashreport_server.Base.{List, [], ap, arith, false, is_empty, refl, true, ◌++◌, ◌∙◌, ◌∷◌, ◌≡◌}
use ucrashreport_server.Signature.Line.{IsMarked, noted, oops_step-noted}
use ucrashreport_server.Signature.Oops.{
  Scan, has_marker, no_scan, note_exception, oops_loop, oops_step, parse_oops, scan_result,
}
use ucrashreport_server.Signature.Prefix.{strip_printk_prefix}
use ucrashreport_server.Text.{Text, lines}
use ucrashreport_server.Text.Breaks.{lines-append}

oops_loop-append :
    (ls ms : List Text) (s : Scan) → oops_loop s (ls ++ ms) ≡ oops_loop (oops_loop s ls) ms
unfolding oops_loop
oops_loop-append [] ms s = refl
oops_loop-append (raw ∷ ls) ms s = oops_loop-append ls ms (oops_step s raw)

-- At a marked line a finished trace is forgotten.
noted-fresh :
    (line : Text) (s : Scan)
    → has_marker line ≡ true
    → is_empty s.frames ≡ false
    → s.in_trace ≡ false
    → noted line s ≡ noted line no_scan
unfolding noted note_exception
noted-fresh line s m full closed = rw m (ground arith)

oops_step-marked :
    (raw : Text) (s : Scan)
    → IsMarked raw
    → is_empty s.frames ≡ false
    → s.in_trace ≡ false
    → oops_step s raw ≡ oops_step no_scan raw
oops_step-marked raw s m full closed = rw (
  oops_step-noted s raw,
  oops_step-noted no_scan raw,
  noted-fresh (strip_printk_prefix raw) s m full closed,
)

oops_loop-marked :
    (raw : Text) (rest : List Text) (s : Scan)
    → IsMarked raw
    → is_empty s.frames ≡ false
    → s.in_trace ≡ false
    → oops_loop s (raw ∷ rest) ≡ oops_loop no_scan (raw ∷ rest)
unfolding oops_loop
oops_loop-marked raw rest s m full closed =
    ap (λ t. oops_loop t rest) (oops_step-marked raw s m full closed)

-- Where the text `a` ends in a finished trace, with frames, and the text `b` after it begins with a
-- marked line, the answer is that of `b` alone.
pub parse_oops-last :
    (a b : Text) {raw : Text} {rest : List Text}
    → lines b ≡ raw ∷ rest
    → IsMarked raw
    → is_empty (oops_loop no_scan (lines (a ++ b'\n' ∷ []))).frames ≡ false
    → (oops_loop no_scan (lines (a ++ b'\n' ∷ []))).in_trace ≡ false
    → parse_oops (a ++ b'\n' ∷ b) ≡ parse_oops b
unfolding parse_oops
parse_oops-last a b {raw} {rest} e m full closed =
    ap scan_result {y = oops_loop no_scan (lines b)} (
      ap (oops_loop no_scan) (lines-append a b)
      ∙ oops_loop-append (lines (a ++ b'\n' ∷ [])) (lines b) no_scan
      ∙ rw e (oops_loop-marked raw rest _ m full closed))
