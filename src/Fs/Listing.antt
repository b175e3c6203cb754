-- ===== src/Fs/Listing.antt =====
-- The operations of src/kernel/fs.c that print: `fs_ls` and `fs_cat`. The lines that they emit are a
-- list, in order. `none` stands for FS_OK.
pub mod Cat
use openkernel.Base.{
  ℕ, zero, suc, ◌+◌, ◌-◌, ◌*◌, ◌/◌, ◌%◌, Bool, true, false, ◌&&◌, ◌||◌, not, Option, none, some,
  List, [], ◌∷◌, ◌++◌, ltb, leb, ◌==◌, if◌then◌else◌, length, take, Text, codes,
}
use openkernel.Fs.{
  Error, not_dir, not_file, not_txt, Result, ok, err, Node, Fs, max_nodes, max_name,
}
use openkernel.Fs.Strings.{streq, ends_with_txt}
use openkernel.Fs.Nodes.{is_file, has_parent}
use openkernel.Fs.Path.{fs_resolve}

-- `while (*text && p < limit) line[p++] = *text++;`
abbrev pub add : ℕ → Text → Text → Text
add limit line text = line ++ take (limit - length line) text

-- The C string in a buffer: what stands before the first NUL.
unfoldable pub until_nul : List ℕ → Text
until_nul [] = []
until_nul (c ∷ cs) = let rest = until_nul cs in if c == 0 then [] else c ∷ rest

-- The decimal digits of `v`, the lowest first, of which there is room for `k`.
unfoldable pub digits : ℕ → ℕ → Text
digits zero v = []
digits (suc k) v = let rest = digits k (v / 10) in if v == 0 then [] else (b'0' + v % 10) ∷ rest

-- `while (ni > 0) line[p++] = num[--ni]`, before what follows
unfoldable pub backwards : Text → Text → Text
backwards [] tail = tail
backwards (c ∷ cs) tail = backwards cs (c ∷ tail)

abbrev pub number : ℕ → Text
number v = if v == 0 then codes "0" else backwards (digits 15 v) []

unfoldable pub fs_emit_size_line : Text → Text → ℕ → Text
fs_emit_size_line prefix name size =
    let line = add 90 (add 90 (add 90 [] prefix) name) (codes " (") in
    add 90 (add 90 line (number size)) (codes " bytes)")

-- The line of one node.
unfoldable pub entry_line : Node → Text
entry_line n =
    if is_file n.kind
    then fs_emit_size_line (codes "[FILE] ") n.name n.size
    else add (max_name + 15) (codes "[DIR]  ") n.name

-- the `for` of `fs_ls`, with `k` rounds left
unfoldable pub ls_loop : ℕ → ℕ → (ℕ → Node) → ℕ → List Text
ls_loop zero i nodes dir = []
ls_loop (suc k) i nodes dir =
    let rest = ls_loop k (i + 1) nodes dir in
    if (nodes i).used && has_parent (nodes i) dir then entry_line (nodes i) ∷ rest else rest

-- Which directory is listed.
abbrev pub listed : Text → Fs → Result ℕ
listed path fs =
    if streq path [] || streq path (codes ".") || streq path (codes "./")
    then ok fs.cwd
    else fs_resolve fs.nodes fs.cwd path true

abbrev pub or_empty : List Text → List Text
or_empty [] = codes "(empty)" ∷ []
or_empty (l ∷ ls) = l ∷ ls

unfoldable pub fs_ls : Text → Fs → Option Error × List Text
fs_ls path fs = elim (listed path fs) [
  | err e ↦ (some e, [])
  | ok dir ↦
      if is_file (fs.nodes dir).kind
      then (some not_dir, [])
      else (none, or_empty (ls_loop (max_nodes - 1) 1 fs.nodes dir))
]

-- The loop of `fs_cat`, with `line` in the line buffer.
unfoldable pub cat_loop : List ℕ → List ℕ → List Text
cat_loop [] line = if length line == 0 then [] else until_nul line ∷ []
cat_loop (c ∷ cs) line =
    let full = (c == 10) || leb 127 (length line) in
    let next = if c == 10 then [] else (if full then c ∷ [] else line ++ (c ∷ [])) in
    let rest = cat_loop cs next in if full then until_nul line ∷ rest else rest

unfoldable pub fs_cat : Text → Fs → Option Error × List Text
fs_cat path fs = elim (fs_resolve fs.nodes fs.cwd path false) [
  | err e ↦ (some e, [])
  | ok id ↦
      let n = fs.nodes id in
      if not (is_file n.kind)
      then (some not_file, [])
      else (if not (ends_with_txt n.name)
          then (some not_txt, [])
          else (if n.size == 0
              then (none, codes "(empty file)" ∷ [])
              else (none, cat_loop (take n.size n.bytes) [])))
]
