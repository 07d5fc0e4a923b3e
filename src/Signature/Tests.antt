-- ===== src/Signature/Tests.antt =====
-- The unit tests of crates/ucrs-common/src/signature.rs, run on the model.
use Prim.Native.String.{String}
use ucrashreport_server.Base.{
  All, List, [], false, inl, inr, keep, none, refl, some, true, ◌++◌, ◌↔◌, ◌∷◌, ◌≡◌,
}
use ucrashreport_server.Signature.Compute.{compute, first_or, signature_input}
use ucrashreport_server.Signature.Data.{Frame}
use ucrashreport_server.Signature.Exception.{
  is_address, is_counter, is_noise_label, normalize_exception, token_step, token_text,
}
use ucrashreport_server.Signature.LastSection.{parse_oops-last}
use ucrashreport_server.Signature.Line.{Unmarked}
use ucrashreport_server.Signature.Markers.{parse_oops-eq-none}
use ucrashreport_server.Signature.Modules.{distinct}
use ucrashreport_server.Signature.Oops.{
  ends_trace, frame_of, has_marker, oops_step, parse_oops, starts_trace,
}
use ucrashreport_server.Signature.Prefix.{strip_printk_prefix}
use ucrashreport_server.Signature.Section.{InSection, parse_oops-InSection}
use ucrashreport_server.Signature.Stability.{IsAddress, compute-SameCode, cons, nil}
use ucrashreport_server.Signature.Suffixes.{
  IsSuffix, dotted_suffix, flatten, normalize_symbol-suffixes,
}
use ucrashreport_server.Signature.Symbol.{normalize_symbol}
use ucrashreport_server.Signature.Trace.{compute_lem, crash_frames, is_kept, module_names}
use ucrashreport_server.Text.{Text, codes, lines, text_runs}

frame_symbols :
    (normalize_symbol (codes "tcf_action_exec.part.0+0x80/0x1a8") ≡ codes "tcf_action_exec")
    × (normalize_symbol (codes "foo.isra.5.cold") ≡ codes "foo")
    × (normalize_symbol (codes "plain_symbol") ≡ codes "plain_symbol")
unfolding normalize_symbol text_runs
frame_symbols = (refl, refl, refl)

exceptions :
    normalize_exception (codes "Internal error: Oops: 0000000096000045 [#1]  SMP")
    ≡ codes "Internal error: Oops: SMP"
unfolding normalize_exception token_step token_text is_address is_noise_label is_counter text_runs
exceptions = refl

prefixes :
    (strip_printk_prefix (codes "<7>[   59.15]  vfs_write+0xac/0x3c4")
      ≡ codes "vfs_write+0xac/0x3c4")
    × (strip_printk_prefix (codes "[   12.34] msg") ≡ codes "msg")
    × (strip_printk_prefix (codes "<1> 58.909947 Unable to handle") ≡ codes "Unable to handle")
    × (strip_printk_prefix (codes "plain line") ≡ codes "plain line")
unfolding strip_printk_prefix text_runs
prefixes = (refl, refl, refl, refl)

abbrev mixed : Text
mixed =
    codes
      "<4>[  675.75] WARNING: CPU: 0 PID: 3157 at lkdtm_WARNING+0x1c/0x24 [lkdtm]\n<7>[  675.92] Call trace:\n<7>[  675.93]  lkdtm_WARNING+0x1c/0x24 [lkdtm] (P)\n<7>[  675.94]  direct_entry+0x1a8/0x1e0 [lkdtm]\n<4>[  675.97] ---[ end trace 0000000000000000 ]---\n<1>[  723.31] Unable to handle kernel access\n<0>[  723.40] Internal error: Oops: 0000000096000045 [#1]  SMP\n<7>[  723.58] Call trace:\n<7>[  723.59]  lkdtm_EXCEPTION+0x4/0xc [lkdtm] (P)\n<7>[  723.60]  ? direct_entry+0x1a8/0x1e0\n<4>[  723.65] ---[ end trace 0000000000000000 ]---\n"

last_section :
    parse_oops mixed
    ≡ some (
      codes "Unable to handle kernel access",
      record {
        symbol = codes "lkdtm_EXCEPTION+0x4/0xc";
        module_name = some (codes "lkdtm");
        questionable = false;
      }
          ∷ record {
            symbol = codes "direct_entry+0x1a8/0x1e0";
            module_name = none;
            questionable = true;
          }
          ∷ [],
    )
unfolding parse_oops oops_step has_marker starts_trace ends_trace frame_of strip_printk_prefix
    text_runs
last_section = refl

two_suffixes : All IsSuffix (codes ".constprop.0" ∷ codes ".isra.1" ∷ [])
unfolding text_runs
two_suffixes = (
  dotted_suffix (codes "constprop") (codes "0") (inl refl) refl,
  (dotted_suffix (codes "isra") (codes "1") (inr (inl refl)) refl, tt),
)

normalize_symbol-suffixes_example :
    normalize_symbol (
      codes "tcf_classify"
      ++ (flatten (codes ".constprop.0" ∷ codes ".isra.1" ∷ [])
          ++ (codes "+0x" ++ codes "80/0x1a8")))
    ≡ codes "tcf_classify"
unfolding text_runs
normalize_symbol-suffixes_example =
    normalize_symbol-suffixes (codes "tcf_classify") (codes ".constprop.0" ∷ codes ".isra.1" ∷ [])
      (codes "80/0x1a8") refl two_suffixes

-- A digest for runs: the input itself.
abbrev no_digest : Text → Text
no_digest t = t

abbrev frame : String → Frame
frame s = record { symbol = codes s; module_name = none; questionable = false }

abbrev crash : List Frame
crash = frame "show_stack+0x14/0x20" ∷ frame "tcf_classify+0x2b0/0x3e0" ∷ []

abbrev other_crash : List Frame
other_crash = frame "show_stack+0x20/0x30" ∷ frame "tcf_classify+0x1/0x2" ∷ []

compute_lem_example : compute no_digest (codes "pstore") (codes "Oops") crash ≡ record {
  signature =
      signature_input (codes "pstore") (normalize_exception (codes "Oops")) (crash_frames crash);
  title = first_or (normalize_exception (codes "Oops")) (crash_frames crash);
  modules = distinct (module_names (keep is_kept crash));
}
compute_lem_example = compute_lem no_digest (codes "pstore") (codes "Oops") crash

old-IsAddress : IsAddress (codes "00000000f2000800")
unfolding is_address token_text text_runs
old-IsAddress = (((λ e. cc), refl), refl)

new-IsAddress : IsAddress (codes "[0xdeadbeef]")
unfolding is_address token_text text_runs
new-IsAddress = (((λ e. cc), refl), refl)

compute-SameCode_example :
    compute no_digest (codes "pstore") (codes "BUG: 00000000f2000800 [#1]") crash
    ≡ compute no_digest (codes "pstore") (codes "BUG: [0xdeadbeef] [#1]") other_crash
compute-SameCode_example =
    compute-SameCode no_digest (codes "pstore") (codes "BUG:") (codes "00000000f2000800")
      (codes "[0xdeadbeef]") (codes "[#1]") old-IsAddress new-IsAddress
      (cons (codes "show_stack") (codes "14/0x20") (codes "20/0x30")
        (cons (codes "tcf_classify") (codes "2b0/0x3e0") (codes "1/0x2") nil))

abbrev short_text : Text
short_text = codes "Oops: 1\nCall trace:\n foo+0x1/0x2\n---[ end trace 0 ]---"

short_frame : parse_oops short_text ≡ some (codes "Oops: 1", frame "foo+0x1/0x2" ∷ [])
unfolding parse_oops oops_step has_marker starts_trace ends_trace frame_of strip_printk_prefix
    text_runs
short_frame = refl

parse_oops-eq-none_example :
    (parse_oops (codes "hello") ≡ none) ↔ All Unmarked (lines (codes "hello"))
parse_oops-eq-none_example = parse_oops-eq-none (codes "hello")

parse_oops-InSection_example :
    InSection (lines short_text) (codes "Oops: 1") (frame "foo+0x1/0x2" ∷ [])
parse_oops-InSection_example = parse_oops-InSection short_text short_frame

parse_oops-last_example :
    parse_oops (short_text ++ b'\n' ∷ codes "BUG: 2\nx") ≡ parse_oops (codes "BUG: 2\nx")
unfolding parse_oops oops_step has_marker starts_trace ends_trace frame_of strip_printk_prefix
    text_runs
parse_oops-last_example = parse_oops-last short_text (codes "BUG: 2\nx") refl refl refl refl
