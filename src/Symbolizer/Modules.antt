-- ===== src/Symbolizer/Modules.antt =====
-- `Symbolizer` of crates/ucrs-decoder/src/symbols.rs: the kernel's symbols and those of its modules, which
-- are loaded when they are first asked for. The files do not change while a report is annotated.
use ucrashreport_server.Base.{
  Bool, List, Option, [], false, if◌then◌else◌, is_some, none, some, ℕ, ◌++◌,
}
use ucrashreport_server.BuildId.{path_join}
use ucrashreport_server.Pool.{Files, PoolLibs, eq_ignore_ascii_case, path_exists}
use ucrashreport_server.Symbolizer.Binary.{Binary, SymbolLibs, find_location, load_binary}
use ucrashreport_server.Text.{Text, codes, get_entry, set_entry}

pub record Symbolizer : Type 0 where
  pub vmlinux : Option Binary
  pub modules_dir : Text
  pub modules : List (Text × Option Binary)

-- Whether a build-id is the expected one; a file without one is of another build.
abbrev pub is_expected : Option Text → Text → Bool
is_expected none expected = false
is_expected (some got) expected = eq_ignore_ascii_case got expected

unfoldable pub matching_binary : Option Text → Option Binary → Option Binary
matching_binary (some expected) (some bin) =
    if is_expected bin.build_id expected then some bin else none
matching_binary _ bin = bin

unfoldable pub locate_in : Option Binary → Text → ℕ → Option Text
unfolding find_location
locate_in none symbol offset = none
locate_in (some bin) symbol offset = find_location symbol offset bin

module _ (pool_libs : PoolLibs) (libs : SymbolLibs) (files : Files) where
  -- `Symbolizer::new`
  unfoldable pub new_symbolizer : Option Text → Option Text → Symbolizer
  unfolding matching_binary load_binary
  new_symbolizer none expected_buildid = record { vmlinux = none; modules_dir = []; modules = [] }
  new_symbolizer (some dir) expected_buildid = record {
    vmlinux =
        matching_binary expected_buildid
          (load_binary pool_libs libs (path_join dir (codes "debug/vmlinux")) files);
    modules_dir = path_join dir (codes "debug/modules");
    modules = [];
  }

  -- The binary of a module, as the file system has it.
  unfoldable pub load_module : Text → Text → Option Binary
  unfolding load_binary
  load_module modules_dir name =
      let path : Text = path_join modules_dir (name ++ codes ".ko") in
      if path_exists path files then load_binary pool_libs libs path files else none

  -- `module`, by the entry of the name
  unfoldable pub cached_module :
      Option (Option Binary) → Text → Symbolizer → Option Binary × Symbolizer
  unfolding load_module
  cached_module (some bin) name s = (bin, s)
  cached_module none name s =
      let bin = load_module s.modules_dir name in
      (bin, record s { modules = set_entry name bin s.modules })

  unfoldable pub get_module : Text → Symbolizer → Option Binary × Symbolizer
  unfolding cached_module
  get_module name s = cached_module (get_entry name s.modules) name s

  -- `Symbolizer::resolve`
  unfoldable pub resolve_frame : Text → ℕ → Option Text → Symbolizer → Option Text × Symbolizer
  unfolding get_module locate_in
  resolve_frame symbol offset none s = (locate_in s.vmlinux symbol offset, s)
  resolve_frame symbol offset (some name) s =
      let (bin, s') = get_module name s in (locate_in bin symbol offset, s')

unfoldable pub have_symbols : Symbolizer → Bool
have_symbols s = is_some s.vmlinux
