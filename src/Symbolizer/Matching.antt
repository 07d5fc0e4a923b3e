-- ===== src/Symbolizer/Matching.antt =====
-- When a symbolizer of crates/ucrs-decoder/src/symbols.rs has symbols.
use ucrashreport_server.Base.{
  Bool-cases, Option, inl, inr, is_some, none, refl, some, some-eq, subst, true, ◌≡◌,
}
use ucrashreport_server.BuildId.{ascii_lowercase, path_join}
use ucrashreport_server.Pool.{Files, PoolLibs, eq_ignore_ascii_case}
use ucrashreport_server.Symbolizer.Binary.{Binary, SymbolLibs, load_binary}
use ucrashreport_server.Symbolizer.Modules.{
  have_symbols, is_expected, matching_binary, new_symbolizer,
}
use ucrashreport_server.Text.{Text, codes, text_eq_iff}

-- The symbols are those of the directory's kernel, and of the build that was asked for.
pub record IsMatching (loaded : Option Binary) (expected_buildid : Option Text) : Type 0 where
  pub binary : Binary
  pub is_loaded : loaded ≡ some binary
  pub matches :
      (expected : Text)
      → expected_buildid ≡ some expected
      → (got : Text) × (binary.build_id ≡ some got)
        × (ascii_lowercase got ≡ ascii_lowercase expected)

is_expected-eq :
    (o : Option Text) (expected : Text)
    → is_expected o expected ≡ true
    → (got : Text) × (o ≡ some got) × (ascii_lowercase got ≡ ascii_lowercase expected)
unfolding eq_ignore_ascii_case
is_expected-eq none expected h = cc
is_expected-eq (some got) expected h =
    (got, refl, (text_eq_iff (ascii_lowercase got) (ascii_lowercase expected)).0 h)

matching_binary-IsMatching :
    (expected_buildid : Option Text) (loaded : Option Binary)
    → is_some (matching_binary expected_buildid loaded) ≡ true
    → IsMatching loaded expected_buildid
unfolding matching_binary
matching_binary-IsMatching none none h = cc
matching_binary-IsMatching (some e) none h = cc
matching_binary-IsMatching none (some bin) h = record {
  binary = bin;
  is_loaded = refl;
  matches = λ expected e. cc;
}
matching_binary-IsMatching (some x) (some bin) h = elim (Bool-cases (is_expected bin.build_id x)) [
  | inr t ↦ cc (rw t at h)
  | inl t ↦ record {
    binary = bin;
    is_loaded = refl;
    matches = λ expected e.
        subst
          (λ y.
            (got : Text) × (bin.build_id ≡ some got) × (ascii_lowercase got ≡ ascii_lowercase y))
          (some-eq x expected e) (is_expected-eq bin.build_id x t);
  }
]

-- A new symbolizer that has symbols was given a directory and loaded the vmlinux there; if the
-- reporting kernel's build-id is known, the vmlinux has the same one, letter case aside.
pub have_symbols-IsMatching :
    (pool_libs : PoolLibs) (libs : SymbolLibs) (files : Files)
    (symbol_dir expected_buildid : Option Text)
    → have_symbols (new_symbolizer pool_libs libs files symbol_dir expected_buildid) ≡ true
    → (dir : Text) × (symbol_dir ≡ some dir)
      × IsMatching
          (load_binary pool_libs libs (path_join dir (codes "debug/vmlinux")) files)
          expected_buildid
unfolding have_symbols new_symbolizer
have_symbols-IsMatching pool_libs libs files none expected h = cc
have_symbols-IsMatching pool_libs libs files (some dir) expected h =
    (dir, refl, matching_binary-IsMatching expected _ h)
