-- ===== src/Shell/Prompt.antt =====
-- The lines of src/kernel/kernel.c that are written in place: the prompt, and the line that shows
-- how far something has loaded. A line of the console is below 100 wherever the code has a line.
use Prim.Native.Nat.{bit_or}
use openkernel.Base.{
  ℕ, zero, suc, ◌+◌, ◌-◌, ◌*◌, ◌/◌, ◌%◌, ◌^◌, Bool, true, false, ◌&&◌, [], ◌∷◌, ◌++◌, ltb, leb,
  ◌==◌, if◌then◌else◌, update, length, take, Text, codes,
}
use openkernel.Fs.{max_path}
use openkernel.Fs.Listing.{add}
use openkernel.Fs.Editor.{Editor, fs_edit_is_active, fs_edit_path}
use openkernel.Console.{Terminal, vga_cols, scrollback_size, blank_cell, cell, shifted, vga_refresh}

-- `c | (0x70 << 8)`, cut to 16 bits
abbrev pub inverse_cell : ℕ → ℕ
inverse_cell c =
    let widened = if leb 128 c then c + (2 ^ 32 - 2 ^ 8) else c in
    bit_or widened (0x70 * 2 ^ 8) % 2 ^ 16

-- A row with the characters of a text from `col` on, as far as there are columns; the characters
-- are written by the first argument, which is given their index.
unfoldable pub write_cells : (ℕ → ℕ → ℕ) → ℕ → Text → ℕ → (ℕ → ℕ) → ℕ → ℕ
write_cells draw i [] col row = row
write_cells draw i (c ∷ cs) col row =
    if ltb col vga_cols
    then write_cells draw (i + 1) cs (col + 1) (update row col (draw i c))
    else row

-- The column after the characters that are written.
abbrev pub col_after : ℕ → Text → ℕ
col_after col text = if ltb (col + length text) vga_cols then col + length text else vga_cols

unfoldable pub vga_replace_line_text : ℕ → Text → Terminal → Terminal
vga_replace_line_text line text t =
    if leb scrollback_size line
    then t
    else vga_refresh (record t {
      history = update t.history line (write_cells (λ _ c. cell c) 0 text 0 (λ _. blank_cell));
      cursor_col = col_after 0 text;
    })

unfoldable pub vga_reserve_prompt_line : Terminal → Terminal
vga_reserve_prompt_line t =
    let full = leb scrollback_size t.total_lines in
    let total = if full then scrollback_size else t.total_lines + 1 in
    let history = if full then shifted t.history else t.history in
    vga_refresh (record t {
      history = update history (total - 1) (λ _. blank_cell);
      total_lines = total;
      cursor_col = 0;
      cursor_row = 0;
      view_offset = 0;
    })

-- The row of the prompt, the input with the character under the cursor inverse, and an underscore
-- where the cursor is at the end.
unfoldable pub input_row : Text → Text → ℕ → ℕ → ℕ
input_row prompt input cursor_pos =
    let start = col_after 0 prompt in
    let end = col_after start input in
    let draw = λ (i c : ℕ). if i == cursor_pos then inverse_cell c else cell c in
    let row =
      write_cells draw 0 input start (write_cells (λ _ c. cell c) 0 prompt 0 (λ _. blank_cell)) in
    if leb (length input) cursor_pos && ltb end vga_cols
    then update row end (inverse_cell b'_')
    else row

-- The code returns for a console with no line.
unfoldable pub vga_replace_current_input_line : Text → Text → ℕ → Terminal → Terminal
vga_replace_current_input_line prompt input cursor_pos t =
    if t.total_lines == 0
    then t
    else vga_refresh (record t {
      history = update t.history (t.total_lines - 1) (input_row prompt input cursor_pos);
      cursor_row = 0;
      cursor_col = (col_after 0 prompt + cursor_pos) % 2 ^ 8;
    })

unfoldable pub get_prompt_prefix_len : Editor → ℕ
get_prompt_prefix_len e = if fs_edit_is_active e then 5 + length (fs_edit_path e) + 2 else 2

-- `prefix` of `show_text_prompt`, an array of FS_MAX_PATH + 8 bytes
unfoldable pub prompt_prefix : Editor → Text
prompt_prefix e =
    let limit = max_path + 7 in
    let tagged = add limit (add limit [] (codes "edit:")) (fs_edit_path e) in
    let closed = if ltb (length tagged) (max_path + 6) then tagged ++ codes ">" else tagged in
    if fs_edit_is_active e then closed ++ codes " " else codes "> "

unfoldable pub show_text_prompt : Editor → Text → ℕ → Terminal → Terminal
show_text_prompt e cmd cmd_cursor t =
    vga_replace_current_input_line (prompt_prefix e) cmd cmd_cursor t

-- The variables `loading_status_*`.
pub record Loading : Type 0 where
  pub active : Bool
  pub line : ℕ
  pub frame : ℕ
  pub label : Text
  pub progress : ℕ

-- `k` times the character `c`
unfoldable pub repeated : ℕ → ℕ → Text
repeated zero c = []
repeated (suc k) c = c ∷ repeated k c

unfoldable pub loading_line : Loading → Text
loading_line l =
    let dots = l.frame % 3 + 1 in
    let filled = l.progress * 10 / 100 in
    let head =
      codes "["
      ++ repeated dots b'.'
      ++ repeated (3 - dots) b' '
      ++ codes "] ["
      ++ repeated filled b'#'
      ++ repeated (10 - filled) b'.'
      ++ codes "]  " in
    let digits =
      (b'0' + l.progress / 100 % 10)
      ∷ (b'0' + l.progress / 10 % 10)
      ∷ (b'0' + l.progress % 10)
      ∷ [] in
    add 79 (head ++ digits ++ codes "% ") l.label

unfoldable pub render_loading_status : Loading → Terminal → Terminal
render_loading_status l t = if l.active then vga_replace_line_text l.line (loading_line l) t else t

unfoldable pub loading_status_start : Text → Loading → Terminal → Loading × Terminal
loading_status_start label l t =
    let started = record l {
      active = true;
      line = t.total_lines - 1;
      frame = 0;
      label = take 47 label;
    } in
    (started, render_loading_status started t)

unfoldable pub loading_status_tick : Loading → Terminal → Loading × Terminal
loading_status_tick l t =
    let ticked = record l { frame = (l.frame + 1) % 2 ^ 32 } in
    if l.active then (ticked, render_loading_status ticked t) else (l, t)

-- An `int` that is negative has its highest bit set.
unfoldable pub loading_status_set_progress : ℕ → Loading → Terminal → Loading × Terminal
loading_status_set_progress percent l t =
    let clamped = if leb (2 ^ 31) percent then 0 else (if ltb 100 percent then 100 else percent) in
    let set = record l { progress = clamped } in
    if l.active then (set, render_loading_status set t) else (l, t)

unfoldable pub loading_status_done : Loading → Terminal → Loading × Terminal
loading_status_done l t =
    if l.active
    then (
      record l { active = false },
      vga_replace_line_text l.line (add 79 (codes "[OK] ") l.label) t,
    )
    else (l, t)
