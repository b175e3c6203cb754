-- ===== src/Graphics/Display.antt =====
-- The drawing of src/kernel/display.c: the mode that a backend has set, and the plots in it.
pub mod Pixels
pub mod Clear
pub mod Glyphs
pub mod Lines
use Prim.Native.Nat.{bit_and, bit_or}
use openkernel.Base.{
  ℕ, zero, suc, ◌+◌, ◌-◌, ◌*◌, ◌/◌, ◌%◌, ◌^◌, Bool, true, false, ◌&&◌, ◌||◌, not, [], ◌∷◌, ltb, leb,
  ◌==◌, if◌then◌else◌, get_or, Text,
}
use openkernel.Graphics.Bytes.{Bytes, store8, store16, store32}
use openkernel.Graphics.Canvas.{fill_rect, draw_rect}
use openkernel.Graphics.Font.{font8x8}

-- `display_mode_t`
pub record Mode : Type 0 where
  pub width : ℕ
  pub height : ℕ
  pub bpp : ℕ
  pub pitch : ℕ
  pub addr : ℕ
  pub type : ℕ
  pub available : Bool

abbrev pub disp_vga_text : ℕ
disp_vga_text = 0

abbrev pub disp_vga_graph : ℕ
disp_vga_graph = 1

abbrev pub disp_vesa_vbe : ℕ
disp_vesa_vbe = 2

abbrev pub disp_bochs_vbe : ℕ
disp_bochs_vbe = 3

-- The three bytes of a colour.
abbrev pub red : ℕ → ℕ
red color = bit_and (color / 2 ^ 16) 0xff

abbrev pub green : ℕ → ℕ
green color = bit_and (color / 2 ^ 8) 0xff

abbrev pub blue : ℕ → ℕ
blue color = bit_and color 0xff

unfoldable pub display_rgb : ℕ → ℕ → ℕ → ℕ
display_rgb r g b = bit_or (bit_or (r * 2 ^ 16) (g * 2 ^ 8)) b

unfoldable pub rgb_to_vga8 : ℕ → ℕ
rgb_to_vga8 color =
    let r = red color in
    let g = green color in
    let b = blue color in
    if ltb 200 r && ltb 200 g && ltb 200 b
    then 15
    else (if ltb r 50 && ltb g 50 && ltb b 50
        then 0
        else (if ltb 200 r && ltb g 100 && ltb b 100
            then 4
            else (if ltb 200 g && ltb r 100 && ltb b 100
                then 2
                else (if ltb 200 b && ltb r 100 && ltb g 100
                    then 1
                    else bit_or (bit_or (r / 2 ^ 6 * 2 ^ 5) (g / 2 ^ 6 * 2 ^ 2)) (b / 2 ^ 7)))))

-- `color16` of `display_putpixel`
unfoldable pub rgb_to_16 : ℕ → ℕ
rgb_to_16 color =
    bit_or (bit_or (red color / 2 ^ 3 * 2 ^ 11) (green color / 2 ^ 2 * 2 ^ 5)) (blue color / 2 ^ 3)

unfoldable pub display_putpixel : Mode → ℕ → ℕ → ℕ → Bytes → Bytes
display_putpixel d x y color m =
    if d.available
    then (if leb d.width x || leb d.height y
        then m
        else (if d.bpp == 8
            then store8 m ((y * d.pitch + x) % 2 ^ 32) (rgb_to_vga8 color)
            else (if d.bpp == 32
                then store32 m ((y * d.pitch + x * 4) % 2 ^ 32) color
                else (if d.bpp == 16
                    then store16 m ((y * d.pitch + x * 2) % 2 ^ 32) (rgb_to_16 color)
                    else m))))
    else m

unfoldable pub display_fill_rect : Mode → ℕ → ℕ → ℕ → ℕ → ℕ → Bytes → Bytes
unfolding fill_rect
display_fill_rect d x y w h color m = fill_rect (display_putpixel d) x y color w h m

unfoldable pub display_draw_rect : Mode → ℕ → ℕ → ℕ → ℕ → ℕ → Bytes → Bytes
unfolding draw_rect
display_draw_rect d x y w h color m = draw_rect (display_putpixel d) x y color w h m

-- The loop over the cells of a text screen, with `k` rounds left.
unfoldable pub clear_cells : ℕ → ℕ → Bytes → Bytes
clear_cells zero i m = m
clear_cells (suc k) i m = clear_cells k (i + 1) (store16 m (i * 2) (bit_or 32 (7 * 2 ^ 8)))

-- The loop over the bytes of an 8-bit screen.
unfoldable pub clear_bytes : ℕ → ℕ → ℕ → Bytes → Bytes
clear_bytes zero off color m = m
clear_bytes (suc k) off color m = clear_bytes k (off + 1) color (store8 m off color)

-- The loops over the pixels of a row and over the rows of a screen of 32 or 16 bits.
unfoldable pub clear_row : Mode → ℕ → ℕ → ℕ → ℕ → Bytes → Bytes
clear_row d y zero x color m = m
clear_row d y (suc k) x color m = clear_row d y k (x + 1) color (
    if d.bpp == 32
    then store32 m ((y * (d.pitch / 4) + x) % 2 ^ 32 * 4) color
    else (if d.bpp == 16 then store16 m ((y * (d.pitch / 2) + x) % 2 ^ 32 * 2) color else m))

unfoldable pub clear_rows : Mode → ℕ → ℕ → ℕ → Bytes → Bytes
clear_rows d zero y color m = m
clear_rows d (suc k) y color m = clear_rows d k (y + 1) color (clear_row d y d.width 0 color m)

unfoldable pub display_clear : Mode → ℕ → Bytes → Bytes
display_clear d color m =
    if d.available
    then (if d.type == disp_vga_text
        then clear_cells (d.width * d.height) 0 m
        else (if d.bpp == 8
            then clear_bytes (d.width * d.height) 0 color m
            else clear_rows d d.height 0 color m))
    else m

-- `font8x8[c][row]`
unfoldable pub font_row : ℕ → ℕ → ℕ
unfolding font8x8
font_row c row = get_or (get_or font8x8 c []) row 0

-- The rows of the glyph of a character below 128.
unfoldable pub select_glyph : ℕ → ℕ → ℕ
unfolding font_row
select_glyph c row =
    let upper = if leb b'a' c && leb c b'z' then c - b'a' + b'A' else c in font_row upper row

-- The loop over the columns of a row of a glyph, with `k` rounds left: a lit column is a square of
-- two by two pixels.
unfoldable pub glyph_cols : Mode → ℕ → ℕ → ℕ → ℕ → ℕ → ℕ → Bytes → Bytes
glyph_cols d x y color bitmap zero col m = m
glyph_cols d x y color bitmap (suc k) col m = glyph_cols d x y color bitmap k (col + 1) (
    if bit_and bitmap (0x80 / 2 ^ col) == 0
    then m
    else fill_rect (display_putpixel d) ((x + col * 2) % 2 ^ 32) y color 2 2 m)

-- The loop over the rows of a glyph, with `k` rounds left.
unfoldable pub glyph_rows : Mode → ℕ → ℕ → ℕ → (ℕ → ℕ) → ℕ → ℕ → Bytes → Bytes
glyph_rows d x y color glyph zero row m = m
glyph_rows d x y color glyph (suc k) row m =
    glyph_rows d x y color glyph k (row + 1)
      (glyph_cols d x ((y + row * 2) % 2 ^ 32) color (glyph row) 8 0 m)

-- `c` is the byte of the character.
unfoldable pub display_putchar : Mode → ℕ → ℕ → ℕ → ℕ → Bytes → Bytes
display_putchar d c x y color m =
    let shown = if ltb c 32 || ltb 126 c then 32 else c in
    if d.available then glyph_rows d x y color (select_glyph shown) 8 0 m else m

-- The loop of `display_puts_line`, with `max_chars` characters left.
unfoldable pub line_loop : Mode → Text → ℕ → ℕ → ℕ → ℕ → Bytes → Bytes
line_loop d [] max_chars cx y color m = m
line_loop d (c ∷ cs) zero cx y color m = m
line_loop d (c ∷ cs) (suc max_chars) cx y color m =
    if c == 10
    then m
    else line_loop d cs max_chars ((cx + 16) % 2 ^ 32) y color (display_putchar d c cx y color m)

unfoldable pub display_puts_line : Mode → Text → ℕ → ℕ → ℕ → Bytes → Bytes
display_puts_line d str x y color m =
    if not d.available || leb d.width x then m else line_loop d str ((d.width - x) / 16) x y color m

-- The loop of `display_puts`: a line that is full or ends goes on below, if a line fits there.
unfoldable pub puts_loop : Mode → Text → ℕ → ℕ → ℕ → ℕ → Bytes → Bytes
puts_loop d [] x cx cy color m = m
puts_loop d (c ∷ cs) x cx cy color m =
    let below = (cy + 16) % 2 ^ 32 in
    let next = (cx + 16) % 2 ^ 32 in
    let drawn = display_putchar d c cx cy color m in
    let breaks = (c == 10) || ltb d.width ((next + 16) % 2 ^ 32) in
    let shown = if c == 10 then m else drawn in
    let rest =
      puts_loop d cs x (if breaks then x else next) (if breaks then below else cy) color shown in
    if breaks && ltb d.height ((below + 16) % 2 ^ 32) then shown else rest

unfoldable pub display_puts : Mode → Text → ℕ → ℕ → ℕ → Bytes → Bytes
display_puts d str x y color m = puts_loop d str x x y color m
