-- ===== src/Console/Bounds.antt =====
-- The cursor and the view stay inside the history.
use openkernel.Base.{
  ℕ, ◌+◌, ◌-◌, ◌*◌, ◌≤◌, ◌<◌, ◌≡◌, refl, inl, inr, Bool, true, false, [], ◌∷◌, ltb, leb, ◌==◌, Text,
  arith, Bool-cases,
}
use openkernel.Console.{
  Terminal, vga_rows, vga_cols, scrollback_size, vga_update_hardware_cursor, vga_refresh,
  vga_scroll, vga_clear, put_cell, new_line, vga_putchar_with_scrollback, put_all, puts,
}

-- The line that is written to is in the history, the cursor in a line, the view in the lines that
-- there are, and the hardware cursor on the screen.
pub record IsInside (t : Terminal) : Type 0 where
  pub some_line : 1 ≤ t.total_lines
  pub lines : t.total_lines ≤ scrollback_size
  pub view : t.view_offset ≤ t.total_lines - vga_rows
  pub row : t.cursor_row ≡ 0
  pub col : t.cursor_col < vga_cols
  pub hardware : t.hardware_cursor < vga_rows * vga_cols

-- `vga_refresh` sets the hardware cursor and touches no other bound.
refresh-IsInside :
    (t : Terminal)
    → 1 ≤ t.total_lines
    → t.total_lines ≤ scrollback_size
    → t.view_offset ≤ t.total_lines - vga_rows
    → t.cursor_row ≡ 0
    → t.cursor_col < vga_cols
    → IsInside (vga_refresh t)
unfolding vga_refresh vga_update_hardware_cursor
refresh-IsInside t a b c d e = record {
  some_line = a;
  lines = b;
  view = c;
  row = d;
  col = e;
  hardware = (ground arith);
}

vga_scroll-IsInside : (up : Bool) (n : ℕ) (t : Terminal) → IsInside t → IsInside (vga_scroll up n t)
unfolding vga_scroll
vga_scroll-IsInside up n t h = refresh-IsInside _ h.some_line h.lines (ground arith) h.row h.col

vga_clear-IsInside : (t : Terminal) → IsInside (vga_clear t)
unfolding vga_clear
vga_clear-IsInside t =
    refresh-IsInside _ (omega arith) (omega arith) (omega arith) refl (omega arith)

new_line-IsInside :
    (t : Terminal)
    → t.total_lines ≤ scrollback_size
    → t.view_offset ≤ t.total_lines - vga_rows
    → t.cursor_col < vga_cols
    → IsInside (new_line t)
unfolding new_line
new_line-IsInside t b c e = refresh-IsInside _ (ground arith) (ground arith) (ground arith) refl e

putchar-IsInside : (c : ℕ) (t : Terminal) → IsInside t → IsInside (vga_putchar_with_scrollback c t)
unfolding vga_putchar_with_scrollback put_cell
putchar-IsInside c t h =
    let breaks : ltb 0 (t.cursor_row + 1) ≡ true = ground arith in
    let stays : ltb 0 t.cursor_row ≡ false = ground (arith, h.row) in
    elim (Bool-cases (c == 10)) [
      | inl e ↦ rw (e, breaks) (new_line-IsInside _ h.lines h.view (omega arith))
      | inr e ↦ elim (Bool-cases (leb vga_cols (t.cursor_col + 1))) [
        | inl w ↦ rw (e, w, breaks) (new_line-IsInside _ h.lines h.view (omega arith))
        | inr w ↦
            rw (e, w, stays)
              (record {
                some_line = h.some_line;
                lines = h.lines;
                view = h.view;
                row = h.row;
                col = ground arith;
                hardware = h.hardware;
              })
      ]
    ]

put_all-IsInside : (str : Text) (t : Terminal) → IsInside t → IsInside (put_all str t)
unfolding put_all
put_all-IsInside [] t h = h
put_all-IsInside (c ∷ cs) t h = put_all-IsInside cs _ (putchar-IsInside c t h)

-- The operations that `vga_clear` starts.
pub data Shown : Terminal → Type 0 where
  cleared : (t : Terminal) → Shown (vga_clear t)
  written : {t : Terminal} (str : Text) → Shown t → Shown (puts str t)
  scrolled : {t : Terminal} (up : Bool) (n : ℕ) → Shown t → Shown (vga_scroll up n t)

-- After `vga_clear` and any number of texts and scrolls in any order, the line that is written to
-- is one of the 100 of the history, the cursor stands in its 80 columns, the view starts at a line
-- that is there, and the hardware cursor is on the screen.
pub Shown-IsInside : {t : Terminal} → Shown t → IsInside t
unfolding puts
Shown-IsInside (cleared t) = vga_clear-IsInside t
Shown-IsInside (scrolled {t} up n r) = vga_scroll-IsInside up n t (Shown-IsInside r)
Shown-IsInside (written {t} str r) =
    let h = put_all-IsInside str t (Shown-IsInside r) in
    refresh-IsInside (put_all str t) h.some_line h.lines h.view h.row h.col
