-- ===== src/Symbolizer/Caching.antt =====
-- The cache of modules in crates/ucrs-decoder/src/symbols.rs, beside lookups without one.
use ucrashreport_server.Base.{
  Bool-cases, List, Option, Option-cases, [], ap, ap₂, inl, inr, none, refl, some, some-eq, sym, ℕ,
  ◌++◌, ◌∙◌, ◌∷◌, ◌≡◌,
}
use ucrashreport_server.Pool.{Files, PoolLibs}
use ucrashreport_server.Scrub.{Regex}
use ucrashreport_server.Symbolizer.Annotate.{
  Captured, annotate, annotate_line, annotate_loop, captured_frame, first_match, frame_re,
  line_location, location_note,
}
use ucrashreport_server.Symbolizer.Binary.{Binary, SymbolLibs}
use ucrashreport_server.Symbolizer.Modules.{
  Symbolizer, cached_module, get_module, load_module, locate_in, resolve_frame,
}
use ucrashreport_server.Text.{
  Text, codes, get_entry, get_entry-remove_other, lines, set_entry, text_eq, text_eq_iff,
}

module _ (pool_libs : PoolLibs) (libs : SymbolLibs) (regex : Regex) (files : Files) where
  -- What the cache has of a module is what its file gives.
  abbrev pub IsCurrent : Symbolizer → Type 0
  IsCurrent s =
      (name : Text) (bin : Option Binary)
      → get_entry name s.modules ≡ some bin
      → bin ≡ load_module pool_libs libs files s.modules_dir name

  -- The location of a frame, without a cache.
  abbrev pub named_location : Option Binary → Text → Option Text → Text → ℕ → Option Text
  named_location vmlinux modules_dir none symbol offset = locate_in vmlinux symbol offset
  named_location vmlinux modules_dir (some name) symbol offset =
      locate_in (load_module pool_libs libs files modules_dir name) symbol offset

  abbrev pub frame_location : Option Binary → Text → Option Captured → Option Text
  frame_location vmlinux modules_dir none = none
  frame_location vmlinux modules_dir (some c) =
      named_location vmlinux modules_dir c.module_name c.symbol c.offset

  -- An annotated line, without a cache.
  abbrev pub noted_line : Option Binary → Text → Text → Text
  noted_line vmlinux modules_dir line =
      line
      ++ (location_note (
            frame_location vmlinux modules_dir (captured_frame (first_match (regex frame_re line))))
          ++ codes "\n")

  abbrev pub noted_lines : Option Binary → Text → List Text → Text
  noted_lines vmlinux modules_dir [] = []
  noted_lines vmlinux modules_dir (line ∷ rest) =
      noted_line vmlinux modules_dir line ++ noted_lines vmlinux modules_dir rest

  -- The step keeps the kernel's symbols, the directory and a current cache.
  abbrev IsKept : Symbolizer → Symbolizer → Type 0
  IsKept s s' = (s'.vmlinux ≡ s.vmlinux) × (s'.modules_dir ≡ s.modules_dir) × IsCurrent s'

  set_entry-IsCurrent :
      (name : Text) (s : Symbolizer)
      → IsCurrent s
      → (n : Text) (bin : Option Binary)
      → get_entry n (set_entry name (load_module pool_libs libs files s.modules_dir name) s.modules)
        ≡ some bin
      → bin ≡ load_module pool_libs libs files s.modules_dir n
  set_entry-IsCurrent name s current n bin e = elim (Bool-cases (text_eq name n)) [
    | inl t ↦
        sym (some-eq _ bin (rw t at e))
        ∙ ap (load_module pool_libs libs files s.modules_dir) ((text_eq_iff name n).0 t)
    | inr t ↦ current n bin (sym (get_entry-remove_other n name s.modules t) ∙ rw t at e)
  ]

  get_module-load :
      (name : Text) (s : Symbolizer)
      → IsCurrent s
      → ((get_module pool_libs libs files name s).0
          ≡ load_module pool_libs libs files s.modules_dir name)
        × IsKept s (get_module pool_libs libs files name s).1
  unfolding get_module cached_module
  get_module-load name s current = elim (Option-cases (get_entry name s.modules)) [
    | inr (bin, e) ↦ rw e (current name bin e, (refl, refl, current))
    | inl e ↦ rw e (refl, (refl, refl, set_entry-IsCurrent name s current))
  ]

  resolve_frame-location :
      (symbol : Text) (offset : ℕ) (name : Option Text) (s : Symbolizer)
      → IsCurrent s
      → ((resolve_frame pool_libs libs files symbol offset name s).0
          ≡ named_location s.vmlinux s.modules_dir name symbol offset)
        × IsKept s (resolve_frame pool_libs libs files symbol offset name s).1
  unfolding resolve_frame
  resolve_frame-location symbol offset none s current = (refl, (refl, refl, current))
  resolve_frame-location symbol offset (some name) s current =
      let (same, kept) = get_module-load name s current in
      (ap (λ bin. locate_in bin symbol offset) same, kept)

  line_location-location :
      (c : Option Captured) (s : Symbolizer)
      → IsCurrent s
      → ((line_location pool_libs libs regex files c s).0
          ≡ frame_location s.vmlinux s.modules_dir c)
        × IsKept s (line_location pool_libs libs regex files c s).1
  line_location-location none s current = (refl, (refl, refl, current))
  line_location-location (some c) s current =
      resolve_frame-location c.symbol c.offset c.module_name s current

  annotate_loop-noted :
      (ls : List Text) (s : Symbolizer)
      → IsCurrent s
      → (annotate_loop pool_libs libs regex files ls s).0 ≡ noted_lines s.vmlinux s.modules_dir ls
  unfolding annotate_loop annotate_line
  annotate_loop-noted [] s current = refl
  annotate_loop-noted (line ∷ rest) s current =
      let c : Option Captured = captured_frame (first_match (regex frame_re line)) in
      let s' : Symbolizer = (line_location pool_libs libs regex files c s).1 in
      let (same, (v, d, current')) = line_location-location c s current in
      ap₂ (λ loc more. (line ++ (location_note loc ++ codes "\n")) ++ more) same
        (annotate_loop-noted rest s' current' ∙ ap₂ (λ x y. noted_lines x y rest) v d)

  -- Annotating gives what it would give if each frame's module were loaded anew: the lines, each
  -- with the location of its first frame, if that is found. The cache that it starts with has
  -- nothing but what the files give, as the empty cache of a new symbolizer.
  pub annotate-noted :
      (text : Text) (s : Symbolizer)
      → IsCurrent s
      → (annotate pool_libs libs regex files text s).0
        ≡ noted_lines s.vmlinux s.modules_dir (lines text)
  unfolding annotate
  annotate-noted text s current = annotate_loop-noted (lines text) s current
