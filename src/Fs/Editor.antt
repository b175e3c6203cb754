-- ===== src/Fs/Editor.antt =====
-- The line editor of src/kernel/fs.c. The session has the variables `edit_*`; `bytes` are the first
-- `edit_len` bytes of `edit_buf`, and the address 0 is NULL. The lines that an operation emits are
-- a list, in order. `none` stands for FS_OK.
pub mod Buffer
mod Tests
use openkernel.Base.{
  ℕ, zero, suc, ◌+◌, ◌-◌, ◌*◌, ◌/◌, ◌%◌, ◌^◌, Bool, true, false, ◌&&◌, ◌||◌, not, Option, none,
  some, List, [], ◌∷◌, ◌++◌, ltb, leb, ◌==◌, if◌then◌else◌, length, take, get_or, Text, codes,
}
use openkernel.Memory.Heap.{Heap, kmalloc, kfree}
use openkernel.Fs.{
  Error, invalid, no_space, not_file, not_txt, fault, Result, ok, err, Fs, max_file_size, max_path,
}
use openkernel.Fs.Strings.{streq, strcpy, ends_with_txt}
use openkernel.Fs.Nodes.{is_file}
use openkernel.Fs.Path.{fs_resolve}
use openkernel.Fs.File.{grown_cap, fs_write_file}
use openkernel.Fs.Messages.{fs_strerror}
use openkernel.Fs.Lines.{
  skip_lines, line_end, edit_fetch_line, parse_number, newlines, total_lines, print_loop,
  split_line, display_loop,
}
use openkernel.Fs.Listing.{add, until_nul, number}

pub record Editor : Type 0 where
  pub active : Bool
  pub path : Text
  pub buf : ℕ
  pub bytes : List ℕ
  pub cap : ℕ
  pub pending_line : Text
  pub pending_line_valid : Bool
  pub target_line : ℕ

-- The sum of the sizes is not cut to 32 bits: the buffer has at most 64 KB, and no text in memory is
-- within 64 KB of 4 GB.
unfoldable pub edit_buf_append : List ℕ → Editor → Heap → Option Error × Editor × Heap
edit_buf_append text e h =
    let need = length e.bytes + length text in
    let new_cap = grown_cap e.cap need in
    if ltb max_file_size need
    then (some no_space, e, h)
    else (if ltb e.cap need
        then elim (kmalloc new_cap h) [
          | none ↦ (some fault, e, h)
          | some (p, h') ↦ if p == 0 then (some no_space, e, h') else (
            none,
            record e { buf = p; bytes = e.bytes ++ text; cap = new_cap },
            if e.buf == 0 then h' else kfree e.buf h',
          )
        ]
        else (none, record e { bytes = e.bytes ++ text }, h))

unfoldable pub edit_buf_free : Editor → Heap → Editor × Heap
edit_buf_free e h = (
  record e { buf = 0; bytes = []; cap = 0; pending_line_valid = false; target_line = 0 },
  if e.buf == 0 then h else kfree e.buf h,
)

unfoldable pub fs_edit_is_active : Editor → Bool
fs_edit_is_active e = e.active

unfoldable pub fs_edit_path : Editor → Text
fs_edit_path e = e.path

abbrev closed : Editor → Editor
closed e = record e { active = false; path = [] }

unfoldable pub fs_edit_begin : Text → Editor × Fs → Option Error × Editor × Fs
fs_edit_begin path (e, fs) =
    if e.active then (some invalid, e, fs) else elim (fs_resolve fs.nodes fs.cwd path false) [
      | err x ↦ (some x, e, fs)
      | ok id ↦
          let n = fs.nodes id in
          let (cleared, h) = edit_buf_free e fs.heap in
          let opened = record cleared { active = true; path = strcpy path max_path } in
          let (r, filled, h') = edit_buf_append (take n.size n.bytes) opened h in
          if not (is_file n.kind)
          then (some not_file, e, fs)
          else (if not (ends_with_txt n.name)
              then (some not_txt, e, fs)
              else (if n.size == 0 then (none, opened, record fs { heap = h }) else elim r [
                | some x ↦ (some x, closed filled, record fs { heap = h' })
                | none ↦ (none, filled, record fs { heap = h' })
              ]))
    ]

-- The loop of `:e` that copies the lines of `old` and puts `text` for the line `idx`. Each round
-- takes at least one byte. The results of `edit_buf_append` are not looked at.
unfoldable pub replace_loop : ℕ → ℕ → ℕ → Text → List ℕ → Editor × Heap → Editor × Heap
replace_loop zero cur idx text old s = s
replace_loop (suc k) cur idx text [] s = s
replace_loop (suc k) cur idx text (c ∷ cs) (e, h) =
    let (line, rest) = split_line (c ∷ cs) in
    let (_, e1, h1) = edit_buf_append (if cur == idx then text else line) e h in
    elim rest [
      | [] ↦ (e1, h1)
      | nl ∷ after ↦
          let (_, e2, h2) = edit_buf_append (10 ∷ []) e1 h1 in
          replace_loop k (cur + 1) idx text after (e2, h2)
    ]

abbrev Handled : Type 0
Handled = Option Error × List Text × Editor × Fs

-- `:e` for the line `ln`, with `p` after the number
unfoldable pub edit_line : ℕ → Text → Editor → Fs → Handled
edit_line ln p e fs =
    let idx = ln - 1 in
    let fetched = edit_fetch_line ln e.bytes max_path in
    let out_of_range = leb (total_lines e.bytes) idx in
    let empty = record e { buf = 0; bytes = []; cap = 0 } in
    if (ln == 0) || ltb (2 ^ 31) ln
    then (some invalid, codes "Invalid line number" ∷ [], e, fs)
    else (if length e.bytes == 0
        then (some invalid, codes "File is empty" ∷ [], e, fs)
        else (if out_of_range
            then (some invalid, codes "Line number out of range" ∷ [], e, fs)
            else elim p [
              | [] ↦ elim fetched [
                | none ↦ (none, [], e, fs)
                | some l ↦ (
                  none,
                  [],
                  record e { pending_line = l; pending_line_valid = true; target_line = ln },
                  fs,
                )
              ]
              | c ∷ text ↦
                  let (e', h) = replace_loop (length e.bytes) 0 idx text e.bytes (empty, fs.heap) in
                  if c == b' '
                  then (none, codes "Line updated." ∷ [], e', record fs { heap = kfree e.buf h })
                  else (some invalid, codes "Usage: :e <n> [text]" ∷ [], e, fs)
            ]))

-- `:save` and `:w`
unfoldable pub edit_save : Editor → Fs → Handled
edit_save e fs =
    let content = if e.buf == 0 then none else some e.bytes in
    let (r, fs') = fs_write_file e.path content (length e.bytes) fs in
    let (freed, h) = edit_buf_free (closed e) fs'.heap in
    elim r [
      | err x ↦ (some x, fs_strerror (some x) ∷ [], e, fs')
      | ok _ ↦ (none, codes "Saved." ∷ [], freed, record fs' { heap = h })
    ]

-- A line that is no command is added, and a newline after it.
unfoldable pub edit_add : Text → Editor → Fs → Handled
edit_add line e fs =
    let (r, e1, h1) = edit_buf_append line e fs.heap in
    let (r', e2, h2) = edit_buf_append (10 ∷ []) e1 h1 in
    elim r [
      | some x ↦ (some x, fs_strerror (some x) ∷ [], e1, record fs { heap = h1 })
      | none ↦ elim r' [
        | some x ↦ (some x, fs_strerror (some x) ∷ [], e2, record fs { heap = h2 })
        | none ↦ (none, [], e2, record fs { heap = h2 })
      ]
    ]

abbrev starts_edit : Text → Bool
starts_edit line =
    (get_or line 0 0 == b':') && (get_or line 1 0 == b'e') && (get_or line 2 0 == b' ')

abbrev after_edit : Text → Text
after_edit (a ∷ b ∷ c ∷ rest) = rest
after_edit line = []

-- `fs_edit_handle_line` with no line to replace
unfoldable pub handle_line_now : Text → Editor → Fs → Handled
handle_line_now line e fs =
    let (freed, h) = edit_buf_free (closed e) fs.heap in
    let printed = if length e.bytes == 0 then codes "(empty)" ∷ [] else print_loop e.bytes 1 [] in
    let (ln, p) = parse_number 0 (after_edit line) in
    if streq line (codes ":save") || streq line (codes ":w")
    then edit_save e fs
    else (if streq line (codes ":q") || streq line (codes ":quit")
        then (none, codes "Edit cancelled." ∷ [], freed, record fs { heap = h })
        else (if streq line (codes ":p")
            then (none, printed, e, fs)
            else (if starts_edit line then edit_line ln p e fs else edit_add line e fs)))

-- The command that stands for a line typed in place of the line `n`.
unfoldable pub replacing : ℕ → Text → Text
replacing n line = add 4094 (codes ":e " ++ number n ++ codes " ") line

unfoldable pub fs_edit_handle_line : Text → Editor → Fs → Handled
fs_edit_handle_line line e fs =
    let free_line = record e { target_line = 0 } in
    if not e.active
    then (some invalid, [], e, fs)
    else (if e.target_line == 0
        then handle_line_now line e fs
        else (if get_or line 0 0 == b':'
            then handle_line_now line free_line fs
            else handle_line_now (replacing e.target_line line) free_line fs))

unfoldable pub fs_edit_display_content : Editor → List Text
fs_edit_display_content e =
    if not e.active
    then []
    else (if length e.bytes == 0
        then codes "(empty file)" ∷ []
        else codes "--- file ---" ∷ display_loop e.bytes [])

-- `none` is NULL.
unfoldable pub fs_edit_get_pending_line : Editor → Option Text × Editor
fs_edit_get_pending_line e =
    if e.pending_line_valid
    then (some e.pending_line, record e { pending_line_valid = false })
    else (none, e)
