-- ===== src/Fs/Nodes.antt =====
-- Slots and directory entries of src/kernel/fs.c: `fs_alloc_node`, `fs_find_child`,
-- `fs_create_entry`.
use openkernel.Base.{
  ℕ, zero, suc, ◌+◌, ◌-◌, Bool, true, false, ◌&&◌, not, Option, none, some, [], ◌==◌, if◌then◌else◌,
  update, Text,
}
use openkernel.Fs.{
  Kind, dir, file, Result, ok, err, invalid, not_txt, exists, full, Node, Fs, max_nodes, max_name,
}
use openkernel.Fs.Strings.{streq, strcpy, ends_with_txt, is_valid_name}

-- `for (int i = 1; i < FS_MAX_NODES; i++)`, with `k` rounds left; `none` for -1
unfoldable pub alloc_loop : ℕ → ℕ → (ℕ → Node) → Option ℕ
alloc_loop zero i nodes = none
alloc_loop (suc k) i nodes =
    let rest = alloc_loop k (i + 1) nodes in if not (nodes i).used then some i else rest

unfoldable pub fs_alloc_node : (ℕ → Node) → Option ℕ
fs_alloc_node nodes = alloc_loop (max_nodes - 1) 1 nodes

-- `nodes[i].parent == parent`
abbrev pub has_parent : Node → ℕ → Bool
has_parent n parent = elim n.parent [ none ↦ false | some p ↦ p == parent ]

abbrev pub is_child : Node → ℕ → Text → Bool
is_child n parent name = n.used && has_parent n parent && streq n.name name

unfoldable pub find_loop : ℕ → ℕ → (ℕ → Node) → ℕ → Text → Option ℕ
find_loop zero i nodes parent name = none
find_loop (suc k) i nodes parent name =
    let rest = find_loop k (i + 1) nodes parent name in
    if is_child (nodes i) parent name then some i else rest

unfoldable pub fs_find_child : (ℕ → Node) → ℕ → Text → Option ℕ
fs_find_child nodes parent name = find_loop (max_nodes - 1) 1 nodes parent name

abbrev pub is_file : Kind → Bool
is_file dir = false
is_file file = true

abbrev pub fresh_node : ℕ → Text → Kind → Node
fresh_node parent name kind = record {
  used = true;
  parent = some parent;
  kind = kind;
  name = strcpy name max_name;
  address = 0;
  bytes = [];
  size = 0;
  cap = 0;
}

unfoldable pub fs_create_entry : ℕ → Text → Kind → Fs → Result ℕ × Fs
fs_create_entry parent name kind fs =
    if not (is_valid_name name)
    then (err invalid, fs)
    else if is_file kind && not (ends_with_txt name)
    then (err not_txt, fs)
    else elim (fs_find_child fs.nodes parent name) [
      | some _ ↦ (err exists, fs)
      | none ↦ elim (fs_alloc_node fs.nodes) [
        | none ↦ (err full, fs)
        | some id ↦ (ok id, record fs { nodes = update fs.nodes id (fresh_node parent name kind) })
      ]
    ]
