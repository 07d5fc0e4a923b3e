-- ===== src/Pool/Pinned.antt =====
-- What the collection of crates/ucrs-decoder/src/symbols.rs leaves in place.
use ucrashreport_server.Base.{
  All, Bool-cases, List, Option, Option-cases, [], any, ap, append_assoc, arith, false,
  if◌then◌else◌, inl, inr, is_empty, keep, map, none, not, refl, some, some-eq, sym, ℕ, ◌&&◌, ◌++◌,
  ◌==◌, ◌||◌, ◌∙◌, ◌∷◌, ◌≡◌,
}
use ucrashreport_server.BuildId.{path_join}
use ucrashreport_server.Pool.Collect.{
  buildid_dir, drop_dangling, drop_stale, gc, is_before, last_used, retention_secs, snapshot_dir,
}
use ucrashreport_server.Pool.Libs.{SymbolPool}
use ucrashreport_server.Pool.Paths.{
  Files, Node, absolute, insert_once, is_below, is_symlink, level_two, once, path_exists,
  remove_dir_all, remove_file, second_level, somes, split_name, walk_two_levels,
}
use ucrashreport_server.Text.{
  Text, codes, ends_with, get_entry, get_entry-remove_other, starts_with, strip_prefix, text_eq,
  text_eq_iff, truncate_at,
}
use ucrashreport_server.Text.Splits.{starts_with-append}

starts_with-longer : (t a b : Text) → starts_with t a ≡ false → starts_with t (a ++ b) ≡ false
unfolding starts_with
starts_with-longer t [] b h = cc
starts_with-longer [] (d ∷ a) b h = refl
starts_with-longer (c ∷ t) (d ∷ a) b h = ground (arith, starts_with-longer t a b)

-- The path lies in the directory.
abbrev LiesIn : Text → Text → Type 0
LiesIn root d = (rest : Text) × (d ≡ root ++ (b'/' ∷ rest))

LiesIn-is_below : (root d p : Text) → LiesIn root d → is_below root p ≡ false → is_below d p ≡ false
unfolding is_below
LiesIn-is_below root d p (rest, e) out =
    ap (starts_with p) (
      ap (λ k. k ++ codes "/") e
      ∙ append_assoc root (b'/' ∷ rest) (codes "/")
      ∙ sym (append_assoc root (codes "/") (rest ++ codes "/")))
    ∙ starts_with-longer p (root ++ codes "/") (rest ++ codes "/") out

LiesIn-differs : (root d p : Text) → LiesIn root d → is_below root p ≡ false → text_eq d p ≡ false
unfolding is_below
LiesIn-differs root d p (rest, e) out = elim (Bool-cases (text_eq d p)) [
  | inr t ↦ t
  | inl t ↦
      let is_d : p ≡ (root ++ codes "/") ++ rest =
        sym ((text_eq_iff d p).0 t) ∙ e ∙ sym (append_assoc root (codes "/") rest) in
      cc (
        sym out
        ∙ ap (λ k. starts_with k (root ++ codes "/")) is_d
        ∙ starts_with-append (root ++ codes "/") rest)
]

-- The same for the absolute paths.
path_join-is_cons :
    (dir : Text) (c : ℕ) (r rest : Text)
    → path_join dir ((c ∷ r) ++ rest) ≡ path_join dir (c ∷ r) ++ rest
unfolding path_join starts_with
path_join-is_cons dir c r rest = elim (Bool-cases (c == b'/')) [
  | inl e ↦ rw e refl
  | inr e ↦ rw e (elim (Bool-cases (is_empty dir || ends_with dir (codes "/"))) [
    | inl k ↦ rw k (sym (append_assoc dir (c ∷ r) rest))
    | inr k ↦ rw k (sym (append_assoc dir (b'/' ∷ (c ∷ r)) rest))
  ])
]

absolute-LiesIn :
    (files : Files) (root d : Text)
    → is_empty root ≡ false
    → LiesIn root d
    → LiesIn (absolute files root) (absolute files d)
unfolding absolute
absolute-LiesIn files [] d some_root inside = cc
absolute-LiesIn files (c ∷ r) d some_root (rest, e) = (
  rest,
  ap (path_join files.working_dir) e ∙ path_join-is_cons files.working_dir c r (b'/' ∷ rest),
)

path_join-is_empty : (dir p : Text) → is_empty p ≡ false → is_empty (path_join dir p) ≡ false
unfolding path_join
path_join-is_empty dir p h = elim (Bool-cases (starts_with p (codes "/"))) [
  | inl e ↦ rw e h
  | inr e ↦ rw e (joined dir p h)
]
  where
    joined :
        (dir p : Text)
        → is_empty p ≡ false
        → is_empty
            (if is_empty dir || ends_with dir (codes "/") then dir ++ p else dir ++ (b'/' ∷ p))
          ≡ false
    joined [] p h = h
    joined (c ∷ dir) p h = elim (Bool-cases (ends_with (c ∷ dir) (codes "/"))) [
      | inl e ↦ rw e refl
      | inr e ↦ rw e refl
    ]

-- The paths two levels below a directory lie in it.
second_level-LiesIn : (root dir p d : Text) → second_level root dir p ≡ some d → LiesIn root d
unfolding second_level
second_level-LiesIn root dir p d h = level root d (split_name (strip_prefix p (dir ++ codes "/"))) h
  where
    level : (root d : Text) (o : Option (Text × Text)) → level_two root o ≡ some d → LiesIn root d
    level root d none h = cc
    level root d (some (a, rest)) h =
        ((a ++ (b'/' ∷ truncate_at (codes "/") rest)), sym (some-eq _ d h))

insert_once-All :
    (P : Text → Type 0) (t : Text) (ts : List Text) → P t → All P ts → All P (insert_once t ts)
insert_once-All P t ts p ps = elim (Bool-cases (any (text_eq t) ts)) [
  | inl e ↦ rw e ps
  | inr e ↦ rw e (p, ps)
]

once-All : (P : Text → Type 0) (ts : List Text) → All P ts → All P (once ts)
once-All P [] ps = ps
once-All P (t ∷ ts) (p, ps) = insert_once-All P t (once ts) p (once-All P ts ps)

somes-All :
    (P : Text → Type 0) (f : Text × Node → Option Text) (files : List (Text × Node))
    → ((x : Text × Node) (t : Text) → f x ≡ some t → P t)
    → All P (somes (map f files))
somes-All P f [] h = tt
somes-All P f (x ∷ files) h =
    let rest = somes-All P f files h in
    elim (Option-cases (f x)) [ inl e ↦ rw e rest | inr (t, e) ↦ rw e (h x t e, rest) ]

walk_two_levels-LiesIn :
    (root : Text) (files : Files) → All (LiesIn root) (walk_two_levels root files)
unfolding walk_two_levels
walk_two_levels-LiesIn root files = once-All (LiesIn root) _ (
    somes-All (LiesIn root) (λ (p, _). second_level root (absolute files root) p) files.nodes
      (λ (p, n) t e. second_level-LiesIn root (absolute files root) p t e))

-- A file outside a directory that is removed stays.
keep_outside-get_entry :
    (d p : Text) (nodes : List (Text × Node))
    → is_below d p ≡ false
    → get_entry p (keep (λ (q, _). not (is_below d q)) nodes) ≡ get_entry p nodes
keep_outside-get_entry d p [] h = refl
keep_outside-get_entry d p ((q, n) ∷ nodes) h =
    let rest = keep_outside-get_entry d p nodes h in
    elim (Bool-cases (text_eq q p)) [
      | inl e ↦
          let outside : is_below d q ≡ false = ap (is_below d) ((text_eq_iff q p).0 e) ∙ h in
          rw (outside, e) refl
      | inr e ↦ elim (Bool-cases (is_below d q)) [ inl b ↦ rw (b, e) rest | inr b ↦ rw (b, e) rest ]
    ]

module _ (root p : Text) (some_root : is_empty root ≡ false) where
  -- A pass that starts from the directory of the process, and leaves the path alone.
  drop_stale-kept :
      (now weeks : ℕ) (dirs : List Text) (files : Files)
      → is_below (absolute files root) p ≡ false
      → All (LiesIn root) dirs
      → get_entry p (drop_stale now weeks dirs files).nodes ≡ get_entry p files.nodes
  unfolding drop_stale remove_dir_all absolute
  drop_stale-kept now weeks [] files out inside = refl
  drop_stale-kept now weeks (d ∷ dirs) files out (here, inside) =
      elim (Bool-cases (is_before (last_used d files) now (retention_secs weeks))) [
        | inl e ↦
            rw (drop_stale, e)
              (drop_stale-kept now weeks dirs (remove_dir_all d files) out inside
                ∙ keep_outside-get_entry (absolute files d) p files.nodes (
                    LiesIn-is_below (absolute files root) (absolute files d) p
                      (absolute-LiesIn files root d some_root here) out))
        | inr e ↦ rw (drop_stale, e) (drop_stale-kept now weeks dirs files out inside)
      ]

  drop_dangling-kept :
      (links : List Text) (files : Files)
      → is_below (absolute files root) p ≡ false
      → All (LiesIn root) links
      → get_entry p (drop_dangling links files).nodes ≡ get_entry p files.nodes
  unfolding drop_dangling remove_file absolute
  drop_dangling-kept [] files out inside = refl
  drop_dangling-kept (l ∷ links) files out (here, inside) =
      elim (Bool-cases (is_symlink l files && not (path_exists l files))) [
        | inl e ↦
            rw (drop_dangling, e)
              (drop_dangling-kept links (remove_file l files) out inside
                ∙ get_entry-remove_other p (absolute files l) files.nodes (
                    LiesIn-differs (absolute files root) (absolute files l) p
                      (absolute-LiesIn files root l some_root here) out))
        | inr e ↦ rw (drop_dangling, e) (drop_dangling-kept links files out inside)
      ]

drop_stale-working_dir :
    (now weeks : ℕ) (dirs : List Text) (files : Files)
    → (drop_stale now weeks dirs files).working_dir ≡ files.working_dir
unfolding drop_stale remove_dir_all
drop_stale-working_dir now weeks [] files = refl
drop_stale-working_dir now weeks (d ∷ dirs) files =
    elim (Bool-cases (is_before (last_used d files) now (retention_secs weeks))) [
      | inl e ↦ rw (drop_stale, e) (drop_stale-working_dir now weeks dirs (remove_dir_all d files))
      | inr e ↦ rw (drop_stale, e) (drop_stale-working_dir now weeks dirs files)
    ]

-- The collection leaves every file and link alone that is neither in the directory of snapshot
-- trees nor in the one of build-id links: the trees of releases are never collected.
pub gc-kept :
    (pool : SymbolPool) (now weeks : ℕ) (files : Files) (path : Text)
    → is_below (absolute files (snapshot_dir pool)) path ≡ false
    → is_below (absolute files (buildid_dir pool)) path ≡ false
    → get_entry path (gc pool now weeks files).nodes ≡ get_entry path files.nodes
unfolding gc absolute
gc-kept pool now weeks files path no_snapshot no_link =
    let kept : Files = drop_stale now weeks (walk_two_levels (snapshot_dir pool) files) files in
    drop_dangling-kept (buildid_dir pool) path
      (path_join-is_empty pool.dir (codes ".build-id") refl) _ kept
      (ap (λ wd. is_below (path_join wd (buildid_dir pool)) path)
          (drop_stale-working_dir now weeks (walk_two_levels (snapshot_dir pool) files) files)
        ∙ no_link)
      (walk_two_levels-LiesIn (buildid_dir pool) kept)
    ∙ drop_stale-kept (snapshot_dir pool) path
        (path_join-is_empty (path_join pool.dir (codes "kernel")) (codes "SNAPSHOT") refl) now weeks
        _ files no_snapshot (walk_two_levels-LiesIn (snapshot_dir pool) files)
