-- ===== src/Symbolizer/Binary.antt =====
-- `Binary` of crates/ucrs-decoder/src/symbols.rs. What the crates `object` and `addr2line` read in a
-- file is an argument.
use ucrashreport_server.Base.{
  Bool, List, Option, [], if◌then◌else◌, ltb, none, some, ℕ, ◌++◌, ◌+◌, ◌∷◌,
}
use ucrashreport_server.Pool.{Files, PoolLibs, build_id_of_bytes, read_file}
use ucrashreport_server.Text.{Text, codes, get_entry, rsplit_once, set_entry, show_nat, split_once}
use ucrashreport_server.Usign.{Bytes}
use mathlib.Core.Option

pub record Location : Type 0 where
  pub file : Option Text
  pub line : Option ℕ

pub record ElfSymbol : Type 0 where
  pub is_definition : Bool
  pub name : Option Text
  pub address : ℕ

pub record SymbolLibs : Type 0 where
  -- `object::File::parse` and `symbols`
  pub elf_symbols : Bytes → Option (List ElfSymbol)
  -- `addr2line::Loader::new` on a file, and its `find_location`
  pub new_loader : Bytes → Option (ℕ → Option Location)

pub record Binary : Type 0 where
  pub syms : List (Text × ℕ)
  pub build_id : Option Text
  pub loader : ℕ → Option Location

-- The body of the loop over the symbols: a name that comes again replaces the one before.
unfoldable pub add_symbol : ElfSymbol → List (Text × ℕ) → List (Text × ℕ)
add_symbol s syms =
    if s.is_definition
    then elim s.name [ none ↦ syms | some name ↦ set_entry name s.address syms ]
    else syms

unfoldable pub symbol_table : List ElfSymbol → List (Text × ℕ) → List (Text × ℕ)
unfolding add_symbol
symbol_table [] syms = syms
symbol_table (s ∷ rest) syms = symbol_table rest (add_symbol s syms)

-- `u64::checked_add`
unfoldable pub checked_add : ℕ → ℕ → Option ℕ
checked_add a b = if ltb (a + b) 0x1_0000_0000_0000_0000 then some (a + b) else none

-- The part of a path below the directory of the kernel's build.
unfoldable pub source_path : Text → Text
source_path file = elim (rsplit_once file (codes "/linux-")) [
  | none ↦ file
  | some (_, rest) ↦ elim (split_once rest (codes "/")) [ none ↦ file | some (_, p) ↦ p ]
]

unfoldable pub show_location : Location → Option Text
unfolding source_path show_nat
show_location loc = elim loc.file [
  | none ↦ none
  | some file ↦ some (elim loc.line [
    | none ↦ source_path file
    | some line ↦ source_path file ++ (b':' ∷ show_nat line)
  ])
]

unfoldable pub find_location : Text → ℕ → Binary → Option Text
unfolding checked_add show_location
find_location symbol offset bin = elim (get_entry symbol bin.syms) [
  | none ↦ none
  | some base ↦ elim (checked_add base offset) [
    | none ↦ none
    | some addr ↦ elim (bin.loader addr) [ none ↦ none | some loc ↦ show_location loc ]
  ]
]

module _ (pool_libs : PoolLibs) (libs : SymbolLibs) where
  unfoldable pub load_binary : Text → Files → Option Binary
  unfolding symbol_table
  load_binary path files = elim (read_file path files) [
    | none ↦ none
    | some data_bytes ↦ elim (libs.elf_symbols data_bytes) [
      | none ↦ none
      | some symbols ↦
          Option.map
            (λ locate. record {
              syms = symbol_table symbols [];
              build_id = build_id_of_bytes pool_libs (some data_bytes);
              loader = locate;
            })
            (libs.new_loader data_bytes)
    ]
  ]
