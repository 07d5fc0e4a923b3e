-- ===== src/Web/Debug.antt =====
-- From the index of build-ids, crates/ucrs-decoder/src/symbols.rs, to the lookup of debug files,
-- crates/ucrs-server/src/api.rs and crates/ucrs-common/src/buildid.rs.
use ucrashreport_server.Base.{
  Bool-cases, List, Option-cases, [], all, ap, false, inl, inr, is_empty, is_some, ltb, not, refl,
  some, some-eq, sym, true, ◌++◌, ◌||◌, ◌∙◌, ◌∷◌, ◌≡◌,
}
use ucrashreport_server.Base.Results.{ok}
use ucrashreport_server.BuildId.{ascii_lowercase, build_id_link, path_join, resolve}
use ucrashreport_server.Config.{Config, symbols_dir}
use ucrashreport_server.Pool.{
  Files, Node, PoolLibs, absolute, can_create_dir, canonicalize, debug_dir, debug_link, follow,
  index_file, index_id, is_directory, link_file, make_symlink, node_at, path_exists, place_link,
  read_file, regular, remove_file, symlink,
}
use ucrashreport_server.Text.{
  Text, byte_len, codes, ends_with, get_entry, get_entry-remove_other, get_entry-set,
  is_ascii_hexdigit, remove_entry, set_entry, starts_with, text_eq,
}
use ucrashreport_server.Usign.{Bytes}
use ucrashreport_server.Web.Api.{debuginfod_debuginfo, octets}

-- The decoder and the server have each their own computation of a link's path.
debug_link-build_id_link :
    (pool_root id : Text) → debug_link pool_root id ≡ build_id_link pool_root id
unfolding debug_link debug_dir build_id_link
debug_link-build_id_link pool_root id = refl

starts_with_root-append :
    (t u : Text) → starts_with t (codes "/") ≡ true → starts_with (t ++ u) (codes "/") ≡ true
unfolding starts_with
starts_with_root-append [] u h = cc
starts_with_root-append (c ∷ t) u h = h

-- A path from the root stays one, and so does a path that is taken from a directory at the root.
absolute-starts_with :
    (files : Files) (path : Text)
    → starts_with files.working_dir (codes "/") ≡ true
    → starts_with (absolute files path) (codes "/") ≡ true
unfolding absolute path_join
absolute-starts_with files path h = elim (Bool-cases (starts_with path (codes "/"))) [
  | inl e ↦ rw e e
  | inr e ↦
      rw e
        (elim (Bool-cases (is_empty files.working_dir || ends_with files.working_dir (codes "/"))) [
          | inl k ↦ rw k (starts_with_root-append files.working_dir path h)
          | inr k ↦ rw k (starts_with_root-append files.working_dir (b'/' ∷ path) h)
        ])
]

follow_root :
    (path target : Text) → starts_with target (codes "/") ≡ true → follow path target ≡ target
unfolding follow path_join
follow_root path target h = rw h refl

make_symlink-some :
    (target link : Text) (files files' : Files)
    → make_symlink target link files ≡ some files'
    → files' ≡ record files { nodes = set_entry (absolute files link) (symlink target) files.nodes }
unfolding make_symlink
make_symlink-some target link files files' h =
    elim (Bool-cases (is_some (node_at link files) || is_directory link files)) [
      | inl e ↦ cc (rw e at h)
      | inr e ↦ sym (some-eq _ files' (rw e at h))
    ]

canonicalize-regular :
    (path : Text) (bytes : Bytes) (files : Files)
    → node_at path files ≡ some (regular bytes)
    → canonicalize path files ≡ some (absolute files path)
unfolding canonicalize
canonicalize-regular path bytes files h = rw (canonicalize, h) refl

module _ (libs : PoolLibs) (file : Text) (bytes : Bytes) where
  link_file-regular :
      (link : Text) (files : Files)
      → node_at file files ≡ some (regular bytes)
      → link_file libs file link files ≡ make_symlink (absolute files file) link files
  unfolding link_file
  link_file-regular link files there =
      rw (link_file, canonicalize-regular file bytes files there) refl

  place_link-ok :
      (link : Text) (files files' : Files)
      → node_at file files ≡ some (regular bytes)
      → place_link libs file link files ≡ (ok tt, files')
      → files' ≡ record files {
        nodes = set_entry (absolute files link) (symlink (absolute files file)) files.nodes;
      }
  unfolding place_link
  place_link-ok link files files' there h = elim (Option-cases (link_file libs file link files)) [
    | inl e ↦ cc (rw (place_link, e) at h)
    | inr (files1, e) ↦ make_symlink-some (absolute files file) link files files' (
        sym (link_file-regular link files there)
        ∙ e
        ∙ ap some (ap (λ p. p.1) (rw (place_link, e) at h)))
  ]

  -- The files with the link.
  abbrev linked : Text → Files → Files
  linked link files = record files {
    nodes =
        set_entry (absolute files link) (symlink (absolute files file))
          (remove_entry (absolute files link) files.nodes);
  }

  index_file-linked :
      (pool_root id : Text) (files files' : Files)
      → node_at file files ≡ some (regular bytes)
      → text_eq (absolute files (debug_link pool_root id)) (absolute files file) ≡ false
      → ltb (byte_len id) 4 ≡ false
      → index_file libs pool_root file (some id) files ≡ (ok tt, files')
      → files' ≡ linked (debug_link pool_root id) files
  unfolding index_file index_id remove_file absolute node_at
  index_file-linked pool_root id files files' there apart long h =
      let link : Text = debug_link pool_root id in
      let body = rw long at h in
      elim (Bool-cases (not (can_create_dir (debug_dir pool_root id) files))) [
        | inl e ↦ cc (rw e at body)
        | inr e ↦
            place_link-ok link (remove_file link files) files'
              (get_entry-remove_other (absolute files file) (absolute files link) files.nodes apart
                ∙ there)
              (rw e at body)
      ]

-- A link whose target is a path from the root to a file.
module _ (link target : Text) (bytes : Bytes) (v : Files)
    (is_link : node_at link v ≡ some (symlink target))
    (leads : follow (absolute v link) target ≡ target)
    (there : get_entry target v.nodes ≡ some (regular bytes)) where
  link-path_exists : path_exists link v ≡ true
  unfolding path_exists
  link-path_exists = rw (path_exists, is_link, leads, there) refl

  link-read_file : read_file link v ≡ some bytes
  unfolding read_file
  link-read_file = rw (read_file, is_link, leads, there) refl

  link-debuginfod_debuginfo :
      (cfg : Config) (id buildid : Text)
      → link ≡ debug_link (symbols_dir cfg) id
      → ltb (byte_len buildid) 4 ≡ false
      → all is_ascii_hexdigit buildid ≡ true
      → ascii_lowercase buildid ≡ id
      → debuginfod_debuginfo cfg v buildid ≡ octets bytes
  unfolding debuginfod_debuginfo resolve
  link-debuginfod_debuginfo cfg id buildid named wide hex lower =
      let looked_up : build_id_link (symbols_dir cfg) (ascii_lowercase buildid) ≡ link =
        ap (build_id_link (symbols_dir cfg)) lower
        ∙ sym (debug_link-build_id_link (symbols_dir cfg) id)
        ∙ sym named in
      let found : resolve (λ p. path_exists p v) (symbols_dir cfg) buildid ≡ some link =
        rw (resolve, wide, hex, looked_up, link-path_exists) refl in
      rw (debuginfod_debuginfo, found, link-read_file) refl

-- After the pool has indexed a debug file under its build-id, the file's bytes are served to whoever
-- asks for that build-id, in letters of any case: the links that the decoder writes are those that
-- the server looks up, and they lead to the file from wherever they stand. The file is a regular
-- one and not the link itself, the build-id has four hexadecimal digits or more, and the working
-- directory of the process is a path from the root.
pub index_file-debuginfod_debuginfo :
    (libs : PoolLibs) (cfg : Config) (file id buildid : Text) (bytes : Bytes) (files files' : Files)
    → starts_with files.working_dir (codes "/") ≡ true
    → node_at file files ≡ some (regular bytes)
    → text_eq (absolute files (debug_link (symbols_dir cfg) id)) (absolute files file) ≡ false
    → ltb (byte_len id) 4 ≡ false
    → ltb (byte_len buildid) 4 ≡ false
    → all is_ascii_hexdigit buildid ≡ true
    → ascii_lowercase buildid ≡ id
    → index_file libs (symbols_dir cfg) file (some id) files ≡ (ok tt, files')
    → debuginfod_debuginfo cfg files' buildid ≡ octets bytes
unfolding node_at
index_file-debuginfod_debuginfo libs cfg file id buildid bytes files files' root there apart long
      wide hex lower h =
    let link : Text = debug_link (symbols_dir cfg) id in
    let rest : List (Text × Node) = remove_entry (absolute files link) files.nodes in
    ap (λ v. debuginfod_debuginfo cfg v buildid)
      (index_file-linked libs file bytes (symbols_dir cfg) id files files' there apart long h)
    ∙ link-debuginfod_debuginfo link (absolute files file) bytes (linked libs file bytes link files)
        (is_link link files rest)
        (follow_root (absolute files link) (absolute files file)
          (absolute-starts_with files file root))
        (rw apart (
          get_entry-remove_other (absolute files file) (absolute files link) rest apart
          ∙ get_entry-remove_other (absolute files file) (absolute files link) files.nodes apart
          ∙ there))
        cfg id buildid refl wide hex lower
  where
    is_link :
        (link : Text) (files : Files) (rest : List (Text × Node))
        → get_entry
            (absolute files link)
            (set_entry (absolute files link) (symlink (absolute files file)) rest)
          ≡ some (symlink (absolute files file))
    is_link link files rest =
        get_entry-set (absolute files link) (symlink (absolute files file)) rest
