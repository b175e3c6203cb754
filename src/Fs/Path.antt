-- ===== src/Fs/Path.antt =====
-- Paths in src/kernel/fs.c: `fs_resolve`, `fs_resolve_parent`, `fs_rebuild_cwd_path`.
use openkernel.Base.{
  ℕ, zero, suc, ◌+◌, ◌-◌, Bool, true, false, ◌&&◌, not, Option, none, some, List, [], ◌∷◌, ◌++◌,
  ltb, leb, ◌==◌, if◌then◌else◌, length, Text, codes,
}
use openkernel.Fs.{
  not_found, not_dir, invalid, fault, Result, ok, err, Node, Fs, max_nodes, max_name, max_path,
}
use openkernel.Fs.Strings.{streq, strcpy}
use openkernel.Fs.Nodes.{fs_find_child, is_file}

-- `while (path[i] == '/') i++`
unfoldable pub skip_slashes : Text → Text
skip_slashes [] = []
skip_slashes (c ∷ cs) = let rest = skip_slashes cs in if c == b'/' then rest else c ∷ cs

-- The inner `while` of `fs_resolve`: the component and what follows it, `none` if the component
-- does not fit; `j` characters are copied already.
unfoldable pub split_component : ℕ → Text → Option (Text × Text)
split_component j [] = some ([], [])
split_component j (c ∷ cs) =
    let rest = split_component (j + 1) cs in
    if c == b'/'
    then some ([], c ∷ cs)
    else if leb (max_name - 1) j
    then none
    else elim rest [ none ↦ none | some (name, after) ↦ some (c ∷ name, after) ]

-- one component: where it leads from `cur`
unfoldable pub enter : (ℕ → Node) → ℕ → Text → Result ℕ
enter nodes cur component =
    if streq component (codes ".")
    then ok cur
    else if streq component (codes "..")
    then (if cur == 0 then ok cur else elim (nodes cur).parent [ none ↦ err fault | some p ↦ ok p ])
    else elim (fs_find_child nodes cur component) [ none ↦ err not_found | some child ↦ ok child ]

-- The outer `while` of `fs_resolve`; each round takes at least one character.
unfoldable pub resolve_loop : ℕ → (ℕ → Node) → ℕ → Text → Result ℕ
resolve_loop zero nodes cur path = err fault
resolve_loop (suc k) nodes cur [] = ok cur
resolve_loop (suc k) nodes cur (c ∷ cs) = elim (split_component 0 (c ∷ cs)) [
  | none ↦ err invalid
  | some (component, after) ↦ elim (enter nodes cur component) [
    | err e ↦ err e
    | ok next ↦ resolve_loop k nodes next (skip_slashes after)
  ]
]

abbrev pub is_absolute : Text → Bool
is_absolute [] = false
is_absolute (c ∷ cs) = c == b'/'

unfoldable pub fs_resolve : (ℕ → Node) → ℕ → Text → Bool → Result ℕ
fs_resolve nodes start [] want_dir = err invalid
fs_resolve nodes start (c ∷ cs) want_dir =
    let cur = if c == b'/' then 0 else start in
    elim (resolve_loop (length (c ∷ cs) + 1) nodes cur (skip_slashes (c ∷ cs))) [
      | err e ↦ err e
      | ok r ↦ if want_dir && is_file (nodes r).kind then err not_dir else ok r
    ]

-- The text before the last slash and the text after it; `none` if there is no slash.
unfoldable pub split_last_slash : Text → Option (Text × Text)
split_last_slash [] = none
split_last_slash (c ∷ cs) = elim (split_last_slash cs) [
  | some (before, after) ↦ some (c ∷ before, after)
  | none ↦ if c == b'/' then some ([], cs) else none
]

-- The parent's index and the last component of the path.
unfoldable pub fs_resolve_parent : Text → Fs → Result (ℕ × Text)
fs_resolve_parent path fs =
    let start = if is_absolute path then 0 else fs.cwd in
    if leb max_path (length path) then err invalid else elim (split_last_slash path) [
      | none ↦ ok (start, strcpy path max_name)
      | some (before, after) ↦
          elim (fs_resolve fs.nodes start (elim before [ [] ↦ codes "/" | c ∷ cs ↦ c ∷ cs ]) true) [
            | err e ↦ err e
            | ok parent ↦ ok (parent, strcpy after max_name)
          ]
    ]

-- `while (cur > 0 && depth < FS_MAX_NODES)`: the nodes from below the root down to `cur`
unfoldable pub climb : ℕ → (ℕ → Node) → ℕ → List ℕ → List ℕ
climb zero nodes cur stack = stack
climb (suc k) nodes zero stack = stack
climb (suc k) nodes (suc cur) stack = elim (nodes (suc cur)).parent [
  | none ↦ suc cur ∷ stack
  | some p ↦ climb k nodes p (suc cur ∷ stack)
]

abbrev pub ends_with_slash : Text → Bool
ends_with_slash [] = false
ends_with_slash (c ∷ []) = c == b'/'
ends_with_slash (c ∷ d ∷ cs) = ends_with_slash (d ∷ cs)

abbrev pub add_separator : Text → Text
add_separator path =
    if ltb 0 (length path) && not (ends_with_slash path)
    then (if ltb (length path) (max_path - 1) then path ++ codes "/" else path)
    else path

-- the `for` that appends the names
unfoldable pub join_names : (ℕ → Node) → Text → List ℕ → Text
join_names nodes path [] = path
join_names nodes path (id ∷ ids) =
    let base = add_separator path in
    let name = (nodes id).name in
    let rest = join_names nodes (base ++ name) ids in
    if leb (max_path - 1) (length base + length name) then base else rest

unfoldable pub fs_rebuild_cwd_path : Fs → Fs
fs_rebuild_cwd_path fs =
    let path = join_names fs.nodes [] (climb max_nodes fs.nodes fs.cwd []) in
    if fs.cwd == 0
    then record fs { cwd_path = codes "/" }
    else record fs { cwd_path = elim path [ [] ↦ codes "/" | c ∷ cs ↦ c ∷ cs ] }
