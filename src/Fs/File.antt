-- ===== src/Fs/File.antt =====
-- File contents in src/kernel/fs.c: `fs_set_file_data`, `fs_write_file`, `fs_append_file`.
-- A caller's buffer is the list of the bytes that it holds.
use openkernel.Base.{
  ℕ, zero, suc, ◌+◌, ◌*◌, Bool, true, false, not, Option, none, some, List, ◌++◌, ltb, ◌==◌,
  if◌then◌else◌, take, update, Text,
}
use openkernel.Memory.Heap.{kmalloc, kfree}
use openkernel.Fs.{
  file, no_space, invalid, not_file, not_txt, fault, Result, ok, err, Fs, max_file_size,
}
use openkernel.Fs.Strings.{ends_with_txt, fs_strlen}
use openkernel.Fs.Nodes.{fs_find_child, fs_create_entry, is_file}
use openkernel.Fs.Path.{fs_resolve, fs_resolve_parent}

-- `while (new_cap < new_size) new_cap *= 2`; nine doublings of 256 pass the largest file size
unfoldable pub grow_loop : ℕ → ℕ → ℕ → ℕ
grow_loop zero new_cap new_size = new_cap
grow_loop (suc k) new_cap new_size =
    let rest = grow_loop k (new_cap * 2) new_size in if ltb new_cap new_size then rest else new_cap

abbrev pub grow_fuel : ℕ
grow_fuel = 17

unfoldable pub grown_cap : ℕ → ℕ → ℕ
grown_cap cap new_size =
    let new_cap = grow_loop grow_fuel (if cap == 0 then 256 else cap) new_size in
    if ltb max_file_size new_cap then max_file_size else new_cap

-- Make room for `new_size` bytes; the old bytes move if they are kept.
unfoldable pub reserve : ℕ → ℕ → Fs → Result (Unit {0}) × Fs
reserve id new_size fs =
    let n = fs.nodes id in
    let new_cap = grown_cap n.cap new_size in
    if ltb n.cap new_size
    then elim (kmalloc new_cap fs.heap) [
      | none ↦ (err fault, fs)
      | some (p, h) ↦ if p == 0 then (err no_space, record fs { heap = h }) else (
        ok tt,
        record fs {
          nodes = update fs.nodes id (record n { address = p; cap = new_cap });
          heap = if n.address == 0 then h else kfree n.address h;
        },
      )
    ]
    else (ok tt, fs)

unfoldable pub fs_set_file_data : ℕ → List ℕ → ℕ → Bool → Fs → Result (Unit {0}) × Fs
fs_set_file_data id bytes len append fs =
    let new_size = if append then (fs.nodes id).size + len else len in
    let (r, fs') = reserve id new_size fs in
    let n = fs'.nodes id in
    let content = if append then n.bytes ++ take len bytes else take len bytes in
    let stored = record fs' {
      nodes = update fs'.nodes id (record n { bytes = content; size = new_size });
    } in
    if ltb max_file_size len
    then (err no_space, fs)
    else if ltb max_file_size new_size
    then (err no_space, fs)
    else elim r [ err e ↦ (err e, fs') | ok _ ↦ (ok tt, stored) ]

-- `if (len == 0) len = fs_strlen(data)`
abbrev pub write_len : List ℕ → ℕ → ℕ
write_len bytes len = if len == 0 then fs_strlen bytes else len

-- `none` is a NULL `data`.
unfoldable pub fs_write_file : Text → Option (List ℕ) → ℕ → Fs → Result (Unit {0}) × Fs
fs_write_file path none len fs = (err invalid, fs)
fs_write_file path (some bytes) len fs = elim (fs_resolve_parent path fs) [
  | err e ↦ (err e, fs)
  | ok (parent, name) ↦ elim (fs_find_child fs.nodes parent name) [
    | some id ↦
        if is_file (fs.nodes id).kind
        then fs_set_file_data id bytes (write_len bytes len) false fs
        else (err not_file, fs)
    | none ↦
        let (r, fs') = fs_create_entry parent name file fs in
        elim r [
          | err e ↦ (err e, fs')
          | ok id ↦ fs_set_file_data id bytes (write_len bytes len) false fs'
        ]
  ]
]

unfoldable pub fs_append_file : Text → Option (List ℕ) → ℕ → Fs → Result (Unit {0}) × Fs
fs_append_file path none len fs = (err invalid, fs)
fs_append_file path (some bytes) len fs = elim (fs_resolve fs.nodes fs.cwd path false) [
  | err e ↦ (err e, fs)
  | ok id ↦
      if not (is_file (fs.nodes id).kind)
      then (err not_file, fs)
      else if not (ends_with_txt (fs.nodes id).name)
      then (err not_txt, fs)
      else fs_set_file_data id bytes (write_len bytes len) true fs
]
