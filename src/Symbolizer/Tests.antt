-- ===== src/Symbolizer/Tests.antt =====
-- Runs of `annotate` of crates/ucrs-decoder/src/symbols.rs, with a witness for each theorem.
use ucrashreport_server.Base.{
  [], false, if◌then◌else◌, none, refl, some, true, ◌&&◌, ◌==◌, ◌∷◌, ◌≡◌,
}
use ucrashreport_server.BuildId.{ascii_lowercase, path_join}
use ucrashreport_server.Pool.{
  Files, PoolLibs, eq_ignore_ascii_case, is_below, no_entry, path_exists, read_file, regular,
  rooted,
}
use ucrashreport_server.Scrub.{Regex, between, matched}
use ucrashreport_server.Signature.{frame_of, split_module, strip_frame_marks}
use ucrashreport_server.Symbolizer.Annotate.{
  annotate, annotate_line, annotate_loop, captured_frame, first_match, frame_offset, frame_re,
}
use ucrashreport_server.Symbolizer.Binary.{
  SymbolLibs, add_symbol, checked_add, find_location, load_binary, show_location, source_path,
  symbol_table,
}
use ucrashreport_server.Symbolizer.Caching.{IsCurrent, annotate-noted, noted_lines}
use ucrashreport_server.Symbolizer.Matching.{IsMatching, have_symbols-IsMatching}
use ucrashreport_server.Symbolizer.Modules.{
  Symbolizer, cached_module, get_module, have_symbols, load_module, locate_in, matching_binary,
  new_symbolizer, resolve_frame,
}
use ucrashreport_server.Text.{
  Text, codes, lines, magnitude, parse_u64, show_nat, split_sign, starts_with, text_eq, text_runs,
}
use mathlib.Core.Option

unfoldable symbol_runs : Unit {0}
unfolding annotate annotate_loop annotate_line resolve_frame get_module cached_module load_module
    load_binary symbol_table add_symbol checked_add source_path show_location find_location
    locate_in new_symbolizer matching_binary have_symbols first_match frame_offset captured_frame
    parse_u64 split_sign magnitude show_nat eq_ignore_ascii_case path_join read_file path_exists
    is_below ascii_lowercase text_runs
symbol_runs = tt

-- Every binary has one function, and its second instruction is in one line.
abbrev toy_symbols : SymbolLibs
toy_symbols = record {
  elf_symbols = λ bytes. some (
      record { is_definition = false; name = some (codes "printk"); address = 1 }
      ∷ record { is_definition = true; name = some (codes "ath_tx"); address = 16 }
      ∷ []);
  new_loader = λ bytes. some (λ address.
      if address == 24
      then some (record { file = some (codes "/b/linux-6.6/net/tx.c"); line = some 7 })
      else none);
}

abbrev elf_libs : PoolLibs
elf_libs = record {
  http_get = λ url. none;
  http_text = λ url. none;
  hex_sha256 = λ bytes. bytes;
  hex_encode = λ bytes. bytes;
  to_lowercase = λ t. t;
  elf_build_id = λ bytes. some bytes;
  tar_entries = λ bytes. no_entry;
  unpack_in = λ dest e files. none;
}

-- A line that begins with a frame of a module.
abbrev toy_regex : Regex
toy_regex pattern t =
    if text_eq pattern frame_re && starts_with t (codes "ath_tx")
    then matched t (some (codes "ath_tx") ∷ some (codes "0x8") ∷ some (codes "ath") ∷ []) ∷ []
    else between t ∷ []

abbrev symbol_files : Files
symbol_files = rooted (
    (codes "/k/debug/vmlinux", regular (codes "beef"))
    ∷ (codes "/k/debug/modules/ath.ko", regular (codes "f00d"))
    ∷ [])

abbrev toy_symbolizer : Symbolizer
toy_symbolizer =
    new_symbolizer elf_libs toy_symbols symbol_files (some (codes "/k")) (some (codes "BEEF"))

annotates :
    (annotate elf_libs toy_symbols toy_regex symbol_files
      (codes "Call Trace:\nath_tx+0x8/0x20 [ath]\nath_tx+0x8/0x20 [ath]")
      toy_symbolizer).0
    ≡ codes "Call Trace:\nath_tx+0x8/0x20 [ath] (net/tx.c:7)\nath_tx+0x8/0x20 [ath] (net/tx.c:7)\n"
unfolding symbol_runs
annotates = refl

-- The parser of the annotated text takes the location into the name of the module.
polluted_module :
    Option.map (λ f. f.module_name) (frame_of (codes "ath_tx+0x8/0x20 [ath] (net/tx.c:7)"))
    ≡ some (some (codes "ath] (net/tx.c:7)"))
unfolding frame_of strip_frame_marks split_module text_runs
polluted_module = refl

discards :
    have_symbols
      (new_symbolizer elf_libs toy_symbols symbol_files (some (codes "/k")) (some (codes "f00d")))
    ≡ false
unfolding symbol_runs
discards = refl

has_symbols : have_symbols toy_symbolizer ≡ true
unfolding symbol_runs
has_symbols = refl

new-IsCurrent : IsCurrent elf_libs toy_symbols toy_regex symbol_files toy_symbolizer
unfolding new_symbolizer
new-IsCurrent name bin e = cc

annotate-noted_example :
    (annotate elf_libs toy_symbols toy_regex symbol_files
      (codes "ath_tx+0x8/0x20 [ath]")
      toy_symbolizer).0
    ≡ noted_lines elf_libs toy_symbols toy_regex symbol_files toy_symbolizer.vmlinux
        toy_symbolizer.modules_dir
        (lines (codes "ath_tx+0x8/0x20 [ath]"))
annotate-noted_example =
    annotate-noted elf_libs toy_symbols toy_regex symbol_files (codes "ath_tx+0x8/0x20 [ath]")
      toy_symbolizer new-IsCurrent

have_symbols-IsMatching_example :
    (dir : Text) × (some (codes "/k") ≡ some dir)
    × IsMatching
        (load_binary elf_libs toy_symbols (path_join dir (codes "debug/vmlinux")) symbol_files)
        (some (codes "BEEF"))
have_symbols-IsMatching_example =
    have_symbols-IsMatching elf_libs toy_symbols symbol_files (some (codes "/k"))
      (some (codes "BEEF")) has_symbols
