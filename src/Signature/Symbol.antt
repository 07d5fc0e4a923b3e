-- ===== src/Signature/Symbol.antt =====
-- `is_machinery` and `normalize_symbol` of crates/ucrs-common/src/signature.rs.
use ucrashreport_server.Base.{Bool, List, [], any, ◌||◌, ◌∷◌}
use ucrashreport_server.Text.{Text, codes, ends_with, starts_with, trim, truncate_at}

-- Frames of the unwinder and the report machinery.
abbrev pub skip_prefixes : List Text
skip_prefixes =
    codes "dump_backtrace"
    ∷ codes "show_stack"
    ∷ codes "dump_stack"
    ∷ codes "die"
    ∷ codes "__die"
    ∷ codes "oops"
    ∷ codes "panic"
    ∷ codes "__warn"
    ∷ codes "warn_slowpath"
    ∷ codes "report_bug"
    ∷ codes "bug_handler"
    ∷ codes "do_trap"
    ∷ codes "do_page_fault"
    ∷ codes "do_translation_fault"
    ∷ codes "do_mem_abort"
    ∷ codes "el1_"
    ∷ codes "el1h_"
    ∷ codes "__do_kernel_fault"
    ∷ codes "ret_from_"
    ∷ codes "handle_exception"
    ∷ []

unfoldable pub is_machinery : Text → Bool
unfolding starts_with ends_with
is_machinery symbol =
    any (λ p. starts_with symbol p) skip_prefixes || ends_with symbol (codes "_exception")

abbrev pub offset_mark : Text
offset_mark = codes "+0x"

-- `.{suffix}` for each suffix of the array, in its order.
abbrev pub compiler_suffixes : List Text
compiler_suffixes =
    codes ".constprop" ∷ codes ".isra" ∷ codes ".part" ∷ codes ".cold" ∷ codes ".lto" ∷ []

-- `for suffix in [...]`: each round truncates what the round before left.
unfoldable pub strip_suffixes : List Text → Text → Text
strip_suffixes [] out = out
strip_suffixes (suffix ∷ rest) out = strip_suffixes rest (truncate_at suffix out)

unfoldable pub normalize_symbol : Text → Text
unfolding strip_suffixes truncate_at trim
normalize_symbol symbol = strip_suffixes compiler_suffixes (truncate_at offset_mark (trim symbol))
