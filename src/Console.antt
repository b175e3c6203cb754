-- ===== src/Console.antt =====
-- The VGA console of src/kernel/kernel.c: the history of lines with its cursor, the view that is
-- copied to the screen, and what `printk` formats. Screen and history are functions of row and
-- column. A character is its byte, and a signed `char` is widened as the compiler does. A signed
-- `int` is written without its sign where the code has made sure of it; `vga_scroll` takes the
-- direction apart from the distance. The interrupt flag and the port writes are left out.
pub mod Bounds
pub mod Format
mod Tests
use Prim.Native.Nat.{bit_and, bit_or}
use openkernel.Base.{
  ℕ, zero, suc, ◌+◌, ◌-◌, ◌*◌, ◌/◌, ◌%◌, ◌^◌, Bool, true, false, ◌&&◌, List, [], ◌∷◌, ◌++◌, ltb,
  leb, ◌==◌, if◌then◌else◌, update, Text, codes, length, take,
}

abbrev pub vga_rows : ℕ
vga_rows = 25

abbrev pub vga_cols : ℕ
vga_cols = 80

abbrev pub scrollback_size : ℕ
scrollback_size = 100

-- `' ' | (VGA_ATTR << 8)`
abbrev pub blank_cell : ℕ
blank_cell = bit_or 32 (7 * 2 ^ 8)

pub record Terminal : Type 0 where
  pub history : ℕ → ℕ → ℕ
  pub total_lines : ℕ
  pub view_offset : ℕ
  pub cursor_row : ℕ
  pub cursor_col : ℕ
  pub screen : ℕ → ℕ → ℕ
  pub hardware_cursor : ℕ

-- The first line of the history that is on the screen.
abbrev pub start_row : Terminal → ℕ
start_row t = t.total_lines - vga_rows - t.view_offset

-- The position that is sent to the hardware cursor. The last line is never above the screen, so the
-- branch of the code that hides the cursor is left out.
unfoldable pub vga_update_hardware_cursor : Terminal → Terminal
vga_update_hardware_cursor t =
    let row = t.total_lines - 1 - start_row t in
    record t {
      hardware_cursor = (if ltb row vga_rows then row else vga_rows - 1) * vga_cols + t.cursor_col;
    }

unfoldable pub vga_refresh : Terminal → Terminal
vga_refresh t = vga_update_hardware_cursor (record t {
  screen = λ r c.
      if ltb (start_row t + r) t.total_lines then t.history (start_row t + r) c else blank_cell;
})

-- `up` is for a positive `delta`, of the amount `n`.
unfoldable pub vga_scroll : Bool → ℕ → Terminal → Terminal
vga_scroll up n t =
    let moved = if up then t.view_offset + n else t.view_offset - n in
    let max_offset = t.total_lines - vga_rows in
    vga_refresh (record t { view_offset = if ltb max_offset moved then max_offset else moved })

unfoldable pub vga_clear : Terminal → Terminal
vga_clear t = vga_refresh (record t {
  history = λ _ _. blank_cell;
  total_lines = 1;
  view_offset = 0;
  cursor_row = 0;
  cursor_col = 0;
})

-- `c | (VGA_ATTR << 8)`, cut to 16 bits
abbrev pub cell : ℕ → ℕ
cell c =
    let widened = if leb 128 c then c + (2 ^ 32 - 2 ^ 8) else c in
    bit_or widened (7 * 2 ^ 8) % 2 ^ 16

-- The character is put down, and the cursor moves.
unfoldable pub put_cell : ℕ → Terminal → Terminal
put_cell c t =
    let line = t.total_lines - 1 in
    let wraps = leb vga_cols (t.cursor_col + 1) in
    if c == 10 then record t { cursor_col = 0; cursor_row = t.cursor_row + 1 } else record t {
      history = update t.history line (update (t.history line) t.cursor_col (cell c));
      cursor_col = if wraps then 0 else t.cursor_col + 1;
      cursor_row = if wraps then t.cursor_row + 1 else t.cursor_row;
    }

-- The history moves up by a line, and the last line is cleared.
abbrev pub shifted : (ℕ → ℕ → ℕ) → ℕ → ℕ → ℕ
shifted history i j = if ltb i (scrollback_size - 1) then history (i + 1) j else blank_cell

-- A line break in the history.
unfoldable pub new_line : Terminal → Terminal
new_line t =
    let full = ltb scrollback_size (t.total_lines + 1) in
    vga_refresh (record t {
      history = if full then shifted t.history else t.history;
      total_lines = if full then scrollback_size else t.total_lines + 1;
      cursor_row = 0;
    })

unfoldable pub vga_putchar_with_scrollback : ℕ → Terminal → Terminal
vga_putchar_with_scrollback c t =
    let u = put_cell c t in if ltb 0 u.cursor_row then new_line u else u

unfoldable pub putchar : ℕ → Terminal → Terminal
putchar c t = vga_refresh (vga_putchar_with_scrollback c t)

unfoldable pub put_all : Text → Terminal → Terminal
put_all [] t = t
put_all (c ∷ cs) t = put_all cs (vga_putchar_with_scrollback c t)

unfoldable pub puts : Text → Terminal → Terminal
puts str t = vga_refresh (put_all str t)
