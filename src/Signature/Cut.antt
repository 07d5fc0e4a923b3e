-- ===== src/Signature/Cut.antt =====
-- `normalize_symbol` as one cut: the truncations that it makes one after the other, of
-- crates/ucrs-common/src/signature.rs, against a scan for the earliest pattern.
use ucrashreport_server.Base.{
  All, All-append, Bool, List, [], ap, append-nil, append_assoc, arith, refl, ℕ, ◌++◌, ◌==◌, ◌||◌,
  ◌∙◌, ◌∷◌, ◌≡◌,
}
use ucrashreport_server.Signature.Symbol.{
  compiler_suffixes, normalize_symbol, offset_mark, strip_suffixes,
}
use ucrashreport_server.Text.{
  Text, is_whitespace, starts_with, trim, trim_end, trim_end_by, trim_start,
}
use ucrashreport_server.Text.Before.{
  IsMark, before, before-before, before-until, truncate_at-before,
}
use ucrashreport_server.Text.Trimming.{trim-append}

abbrev pub symbol_marks : List Text
symbol_marks = offset_mark ∷ compiler_suffixes

-- The characters that begin the patterns, and stand nowhere else in them.
abbrev pub is_lead : ℕ → Bool
is_lead c = c == b'+' || c == b'.'

pub symbol_marks-IsMark : All (IsMark is_lead) symbol_marks
symbol_marks-IsMark = ground arith

strip_suffixes-before :
    (ps qs : List Text) (t : Text)
    → All (IsMark is_lead) ps
    → All (IsMark is_lead) qs
    → strip_suffixes ps (before qs t) ≡ before (qs ++ ps) t
unfolding strip_suffixes
strip_suffixes-before [] qs t hp hq = rw append-nil
strip_suffixes-before (p ∷ ps) qs t hp hq =
    ap (strip_suffixes ps) (
      truncate_at-before is_lead p (before qs t) hp.0
      ∙ before-before is_lead qs (p ∷ []) t hq (hp.0, tt))
    ∙ strip_suffixes-before ps (qs ++ p ∷ []) t hp.1 (All-append _ qs (p ∷ []) hq (hp.0, tt))
    ∙ rw append_assoc

-- The six truncations that `normalize_symbol` makes one after the other give the trimmed symbol up
-- to the earliest match of any of the six patterns: their order does not matter.
pub normalize_symbol-before : (s : Text) → normalize_symbol s ≡ before symbol_marks (trim s)
unfolding normalize_symbol
normalize_symbol-before s =
    ap (strip_suffixes compiler_suffixes)
      (truncate_at-before is_lead offset_mark (trim s) symbol_marks-IsMark.0)
    ∙ strip_suffixes-before compiler_suffixes (offset_mark ∷ []) (trim s) symbol_marks-IsMark.1
        (symbol_marks-IsMark.0, tt)

-- A symbol with an offset normalises to what stands before the offset, less its own suffixes.
pub normalize_symbol-offset :
    (s o : Text) → normalize_symbol (s ++ (offset_mark ++ o)) ≡ before symbol_marks (trim_start s)
unfolding trim_end trim_end_by is_whitespace starts_with
normalize_symbol-offset s o =
    let after : Text = b'0' ∷ b'x' ∷ o in
    normalize_symbol-before (s ++ b'+' ∷ after)
    ∙ ap (before symbol_marks) (trim-append s b'+' after refl)
    ∙ before-until is_lead symbol_marks (trim_start s) b'+' (trim_end after) refl
        symbol_marks-IsMark refl
