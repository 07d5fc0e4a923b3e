-- ===== src/Pool/Paths.antt =====
-- The file system that crates/ucrs-decoder/src/symbols.rs works on, as the operations of `std::fs` that it
-- uses: files and links by their absolute paths, and the working directory, which relative paths start
-- from. A directory is there as long as something is in it, and none of them is a link.
use ucrashreport_server.Base.{
  Bool, List, Option, [], any, false, if◌then◌else◌, is_some, keep, length, map, none, not, some,
  true, ℕ, ◌&&◌, ◌++◌, ◌||◌, ◌∷◌,
}
use ucrashreport_server.BuildId.{path_join}
use ucrashreport_server.Text.{
  Text, codes, get_entry, remove_entry, rsplit_once, set_entry, split_once, starts_with,
  strip_prefix, text_eq, truncate_at,
}
use ucrashreport_server.Usign.{Bytes}
use mathlib.Core.Option

pub data Node : Type 0 where
  regular : Bytes → Node
  symlink : Text → Node

pub record Files : Type 0 where
  pub working_dir : Text
  pub nodes : List (Text × Node)

-- The files of a process that works at the root.
abbrev pub rooted : List (Text × Node) → Files
rooted nodes = record { working_dir = codes "/"; nodes = nodes }

-- The path from the root.
unfoldable pub absolute : Files → Text → Text
unfolding path_join
absolute files path = path_join files.working_dir path

unfoldable pub node_at : Text → Files → Option Node
unfolding absolute
node_at path files = get_entry (absolute files path) files.nodes

-- The directory that a path is in, and where a link at the path leads: a relative target starts there.
unfoldable pub parent_of : Text → Text
parent_of path = elim (rsplit_once path (codes "/")) [ none ↦ [] | some (dir, _) ↦ dir ]

unfoldable pub follow : Text → Text → Text
unfolding parent_of path_join
follow path target = path_join (parent_of path) target

-- The path lies below the directory.
unfoldable pub is_below : Text → Text → Bool
is_below dir path = starts_with path (dir ++ codes "/")

abbrev pub has_below : Text → List (Text × Node) → Bool
has_below dir nodes = any (λ (p, _). is_below dir p) nodes

unfoldable pub is_directory : Text → Files → Bool
unfolding absolute is_below
is_directory dir files = has_below (absolute files dir) files.nodes

-- `Path::is_symlink`
abbrev pub node_is_symlink : Option Node → Bool
node_is_symlink (some (symlink t)) = true
node_is_symlink _ = false

unfoldable pub is_symlink : Text → Files → Bool
unfolding node_at
is_symlink path files = node_is_symlink (node_at path files)

-- `Path::exists`, which follows a link to a file or a directory.
abbrev pub node_exists : Text → Option Node → List (Text × Node) → Bool
node_exists path none nodes = false
node_exists path (some (regular b)) nodes = true
node_exists path (some (symlink t)) nodes =
    is_some (get_entry (follow path t) nodes) || has_below (follow path t) nodes

unfoldable pub path_exists : Text → Files → Bool
unfolding node_at follow is_directory
path_exists path files =
    node_exists (absolute files path) (node_at path files) files.nodes || is_directory path files

abbrev pub node_bytes : Option Node → Option Bytes
node_bytes (some (regular b)) = some b
node_bytes _ = none

abbrev pub read_node : Text → Option Node → List (Text × Node) → Option Bytes
read_node path none nodes = none
read_node path (some (regular b)) nodes = some b
read_node path (some (symlink t)) nodes = node_bytes (get_entry (follow path t) nodes)

-- `std::fs::read`, `none` on an error
unfoldable pub read_file : Text → Files → Option Bytes
unfolding node_at follow
read_file path files = read_node (absolute files path) (node_at path files) files.nodes

-- `tokio::fs::metadata` and its `len`, of a file
unfoldable pub file_len : Text → Files → Option ℕ
unfolding read_file
file_len path files = Option.map length (read_file path files)

-- `std::fs::write` of a regular file
abbrev pub write_file : Text → Bytes → Files → Files
write_file path bytes files = record files {
  nodes = set_entry (absolute files path) (regular bytes) files.nodes;
}

-- `std::fs::remove_dir_all`
unfoldable pub remove_dir_all : Text → Files → Files
unfolding is_below absolute
remove_dir_all dir files = record files {
  nodes = keep (λ (p, _). not (is_below (absolute files dir) p)) files.nodes;
}

-- `std::fs::remove_file`, which a directory refuses
unfoldable pub remove_file : Text → Files → Files
unfolding absolute
remove_file path files = record files { nodes = remove_entry (absolute files path) files.nodes }

abbrev pub is_regular : Node → Bool
is_regular (regular b) = true
is_regular (symlink t) = false

-- `std::fs::create_dir_all` succeeds, as no file stands where a directory of the path is to be.
unfoldable pub can_create_dir : Text → Files → Bool
unfolding absolute is_below
can_create_dir dir files = not (
    any
      (λ (p, n).
        is_regular n && (text_eq p (absolute files dir) || is_below p (absolute files dir)))
      files.nodes)

-- `std::os::unix::fs::symlink`, which refuses a path that is taken; `none` on an error
unfoldable pub make_symlink : Text → Text → Files → Option Files
unfolding node_at is_directory
make_symlink target link files =
    if is_some (node_at link files) || is_directory link files
    then none
    else some
        (record files { nodes = set_entry (absolute files link) (symlink target) files.nodes })

-- `Path::canonicalize` of a file or a link to one, `none` on an error
abbrev pub canonical_node : Text → Option Node → List (Text × Node) → Option Text
canonical_node path none nodes = none
canonical_node path (some (regular b)) nodes = some path
canonical_node path (some (symlink t)) nodes =
    if is_some (get_entry (follow path t) nodes) then some (follow path t) else none

unfoldable pub canonicalize : Text → Files → Option Text
unfolding node_at follow
canonicalize path files = canonical_node (absolute files path) (node_at path files) files.nodes

abbrev pub insert_once : Text → List Text → List Text
insert_once t ts = if any (text_eq t) ts then ts else t ∷ ts

-- The names, each once.
abbrev pub once : List Text → List Text
once [] = []
once (t ∷ ts) = insert_once t (once ts)

abbrev pub somes : List (Option Text) → List Text
somes [] = []
somes (none ∷ os) = somes os
somes (some t ∷ os) = t ∷ somes os

-- The name of a path's part in the directory, and the path of what lies two levels below it.
unfoldable pub name_below : Text → Text → Option Text
name_below dir path =
    Option.map (λ rest. truncate_at (codes "/") rest) (strip_prefix path (dir ++ codes "/"))

-- `std::fs::read_dir`, as paths
unfoldable pub read_dir : Text → Files → List Text
unfolding name_below absolute
read_dir dir files = once (
    somes (
      map (λ (p, _). Option.map (λ n. dir ++ (b'/' ∷ n)) (name_below (absolute files dir) p))
        files.nodes))

abbrev pub level_two : Text → Option (Text × Text) → Option Text
level_two root none = none
level_two root (some (a, rest)) =
    some (root ++ (b'/' ∷ (a ++ (b'/' ∷ truncate_at (codes "/") rest))))

abbrev pub split_name : Option Text → Option (Text × Text)
split_name none = none
split_name (some rest) = split_once rest (codes "/")

-- The path two levels below `root`, whose absolute path is `dir`, that leads to `path`.
unfoldable pub second_level : Text → Text → Text → Option Text
second_level root dir path = level_two root (split_name (strip_prefix path (dir ++ codes "/")))

-- `walk_two_levels`, whose two nested loops are one pass over the paths here
unfoldable pub walk_two_levels : Text → Files → List Text
unfolding second_level absolute
walk_two_levels root files =
    once (somes (map (λ (p, _). second_level root (absolute files root) p) files.nodes))
