-- ===== src/Fs/Editor/Tests.antt =====
-- The editor, the printing operations and the shell at concrete inputs, and their theorems there.
use openkernel.Base.{
  ◌≡◌, refl, true, false, none, some, List, [], ◌∷◌, ◌-◌, arith, codes, update, Text, length,
  get_elem?,
}
use openkernel.Memory.Heap.{Heap, heap_init, heap_size, header_size}
use openkernel.Memory.Heap.Chain.{Cell}
use openkernel.Memory.Heap.Laws.{heap_init-Blocks}
use openkernel.Fs.{file, Fs}
use openkernel.Fs.Strings.{streq, strcpy, ends_with_txt}
use openkernel.Fs.Nodes.{fs_find_child, find_loop, fresh_node}
use openkernel.Fs.Path.{fs_resolve, resolve_loop, enter, skip_slashes, split_component}
use openkernel.Fs.Commands.{unused_node}
use openkernel.Fs.Listing.{
  fs_cat, cat_loop, until_nul, fs_ls, ls_loop, entry_line, fs_emit_size_line, digits, backwards,
}
use openkernel.Fs.Listing.Cat.{joined, without_newlines, Within, fs_cat_lem}
use openkernel.Fs.Lines.{edit_fetch_line, total_lines, print_loop}
use openkernel.Fs.Lines.Fetch.{copied, lines, edit_fetch_line-lines}
use openkernel.Fs.Editor.{Editor, edit_buf_append}
use openkernel.Fs.Editor.Buffer.{IsBuffer, null, Appended, edit_buf_append_lem}
use openkernel.Fs.Shell.{
  parse_path_and_rest, parse_quoted_tail, copy_until, starts_with, skip_spaces,
}

abbrev no_heap : Heap
no_heap = record {
  block_at = λ _. record { next = 0; size = 0; free = false };
  heap_start = 0;
  heap_end = 0;
}

-- One file in the root, with two lines.
abbrev note : Text
note = 104 ∷ 105 ∷ 10 ∷ 121 ∷ []

abbrev one_file : Fs
one_file = record {
  nodes =
      update (update (λ _. unused_node) 0 (record unused_node { used = true })) 1
        (record (fresh_node 0 (codes "a.txt") file) { bytes = note; size = 4; cap = 256 });
  cwd = 0;
  cwd_path = codes "/";
  heap = heap_init no_heap;
}

cat_note : fs_cat (codes "a.txt") one_file ≡ (none, codes "hi" ∷ codes "y" ∷ [])
unfolding fs_cat cat_loop until_nul fs_resolve resolve_loop enter skip_slashes split_component
    fs_find_child find_loop streq strcpy ends_with_txt
cat_note = refl

ls_root : fs_ls [] one_file ≡ (none, codes "[FILE] a.txt (4 bytes)" ∷ [])
unfolding fs_ls ls_loop entry_line fs_emit_size_line digits backwards streq strcpy
ls_root = refl

-- `:p` leaves out a last line that no newline ends.
print_note : print_loop note 1 [] ≡ codes "1: hi" ∷ []
unfolding print_loop until_nul digits backwards
print_note = refl

write_command :
    parse_path_and_rest (codes "write a.txt \"x y\"") (codes "write") 4096
    ≡ some (codes "a.txt", codes "x y")
unfolding parse_path_and_rest parse_quoted_tail copy_until starts_with skip_spaces
write_command = refl

fs_cat_lem_example :
    (ls : List Text) × (fs_cat (codes "a.txt") one_file ≡ (none, ls))
    × (joined ls ≡ without_newlines note)
    × Within 127 ls
unfolding fs_resolve resolve_loop enter skip_slashes split_component fs_find_child find_loop streq
    strcpy ends_with_txt
fs_cat_lem_example =
    fs_cat_lem (codes "a.txt") one_file 1 refl refl refl (λ e. omega arith)
      (λ e. omega arith, (λ e. omega arith, (λ e. omega arith, (λ e. omega arith, tt))))

edit_fetch_line-lines_example :
    (edit_fetch_line 2 note 256 ≡ copied 256 (get_elem? (lines note) 1))
    × (total_lines note ≡ length (lines note))
edit_fetch_line-lines_example =
    edit_fetch_line-lines 1 104 256 (105 ∷ 10 ∷ 121 ∷ []) (omega arith) (omega arith)

abbrev closed : Editor
closed = record {
  active = true;
  path = codes "a.txt";
  buf = 0;
  bytes = [];
  cap = 0;
  pending_line = [];
  pending_line_valid = false;
  target_line = 0;
}

abbrev one_cell : List Cell
one_cell = record { size = heap_size - header_size; free = true } ∷ []

closed-IsBuffer : IsBuffer closed one_cell
closed-IsBuffer = record { holds = null refl refl; fits = omega arith; bounded = omega arith }

edit_buf_append_lem_example :
    Appended note closed one_cell (edit_buf_append note closed (heap_init no_heap))
edit_buf_append_lem_example =
    edit_buf_append_lem note closed (heap_init no_heap) one_cell (heap_init-Blocks no_heap)
      closed-IsBuffer
