-- ===== src/Fs/Commands.antt =====
-- Directory operations of src/kernel/fs.c: `fs_cd`, `fs_mkdir`, `fs_touch`, `fs_rm`.
use openkernel.Base.{
  ℕ, zero, suc, ◌+◌, ◌-◌, Bool, true, false, ◌&&◌, not, none, some, [], ◌==◌, if◌then◌else◌, update,
  Text, codes,
}
use openkernel.Memory.Heap.{kfree}
use openkernel.Fs.{
  dir, file, not_dir, not_file, not_empty, invalid, full, Result, ok, err, Node, Fs, max_nodes,
}
use openkernel.Fs.Strings.{is_valid_name}
use openkernel.Fs.Nodes.{fs_find_child, fs_create_entry, is_file, has_parent}
use openkernel.Fs.Path.{fs_resolve, fs_resolve_parent, fs_rebuild_cwd_path}
use openkernel.Fs.File.{fs_write_file}

unfoldable pub fs_cd : Text → Fs → Result (Unit {0}) × Fs
fs_cd path fs = elim (fs_resolve fs.nodes fs.cwd path true) [
  | err e ↦ (err e, fs)
  | ok target ↦
      if is_file (fs.nodes target).kind
      then (err not_dir, fs)
      else (ok tt, fs_rebuild_cwd_path (record fs { cwd = target }))
]

-- Every failure of `fs_create_entry` becomes FS_ERR_FULL.
abbrev pub created_or_full : Result ℕ × Fs → Result (Unit {0}) × Fs
created_or_full (ok id, fs) = (ok tt, fs)
created_or_full (err e, fs) = (err full, fs)

abbrev pub created_or_error : Result ℕ × Fs → Result (Unit {0}) × Fs
created_or_error (ok id, fs) = (ok tt, fs)
created_or_error (err e, fs) = (err e, fs)

unfoldable pub fs_mkdir : Text → Fs → Result (Unit {0}) × Fs
fs_mkdir path fs = elim (fs_resolve_parent path fs) [
  | err e ↦ (err e, fs)
  | ok (parent, name) ↦
      if not (is_valid_name name)
      then (err invalid, fs)
      else created_or_full (fs_create_entry parent name dir fs)
]

unfoldable pub fs_touch : Text → Fs → Result (Unit {0}) × Fs
fs_touch path fs = elim (fs_resolve_parent path fs) [
  | err e ↦ (err e, fs)
  | ok (parent, name) ↦ elim (fs_find_child fs.nodes parent name) [
    | some existing ↦ if is_file (fs.nodes existing).kind then (ok tt, fs) else (err not_file, fs)
    | none ↦ created_or_error (fs_create_entry parent name file fs)
  ]
]

-- the `for` of `fs_rm` that looks for a child
unfoldable pub any_child : ℕ → ℕ → (ℕ → Node) → ℕ → Bool
any_child zero i nodes id = false
any_child (suc k) i nodes id =
    let rest = any_child k (i + 1) nodes id in
    if (nodes i).used && has_parent (nodes i) id then true else rest

-- the node of `fs_rm` after the buffer is freed and the slot given back
abbrev pub removed_node : Node → Node
removed_node n = record n { used = false; address = 0; bytes = []; size = 0; cap = 0 }

unfoldable pub remove_node : ℕ → Fs → Fs
remove_node id fs =
    let n = fs.nodes id in
    let heap = if n.address == 0 then fs.heap else kfree n.address fs.heap in
    let freed = record fs {
      nodes = update fs.nodes id (record n { address = 0; bytes = [] });
      heap = heap;
    } in
    let moved : Fs = elim n.parent [
      | none ↦ freed
      | some p ↦ fs_rebuild_cwd_path (record freed { cwd = p })
    ] in
    let left = if fs.cwd == id then moved else freed in
    record left { nodes = update left.nodes id (removed_node (left.nodes id)) }

unfoldable pub fs_rm : Text → Fs → Result (Unit {0}) × Fs
fs_rm path fs = elim (fs_resolve fs.nodes fs.cwd path false) [
  | err e ↦ (err e, fs)
  | ok id ↦
      if id == 0
      then (err invalid, fs)
      else if not (is_file (fs.nodes id).kind) && any_child (max_nodes - 1) 1 fs.nodes id
      then (err not_empty, fs)
      else (ok tt, remove_node id fs)
]

abbrev pub unused_node : Node
unused_node = record {
  used = false;
  parent = none;
  kind = dir;
  name = [];
  address = 0;
  bytes = [];
  size = 0;
  cap = 0;
}

abbrev pub readme_text : Text
readme_text =
    codes "Welcome to openkernel OKFS.\nUse 'help --fs' for file commands.\nTry: cat readme.txt\n"

abbrev pub about_text : Text
about_text = codes "openkernel educational filesystem.\nText files use the .txt extension.\n"

-- the nodes and the current directory before the first entries are made
unfoldable pub empty_fs : Fs → Fs
empty_fs fs = record fs {
  nodes = update (λ _. unused_node) 0 (record unused_node { used = true });
  cwd = 0;
  cwd_path = codes "/";
}

unfoldable pub fs_init : Fs → Fs
fs_init fs =
    let docs = (fs_mkdir (codes "/docs") (empty_fs fs)).1 in
    let readme = (fs_write_file (codes "/readme.txt") (some readme_text) 0 docs).1 in
    (fs_write_file (codes "/docs/about.txt") (some about_text) 0 readme).1
