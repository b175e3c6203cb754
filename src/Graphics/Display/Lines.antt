-- ===== src/Graphics/Display/Lines.antt =====
-- A line of text on the display.
use openkernel.Base.{
  ℕ, zero, suc, ◌+◌, ◌-◌, ◌*◌, ◌/◌, ◌%◌, ◌^◌, ◌≤◌, ◌<◌, ◌≡◌, Bool, false, ◌&&◌, [], ◌∷◌, ltb, leb,
  ◌==◌, if◌then◌else◌, take, Text, arith,
}
use openkernel.Graphics.Bytes.{Bytes}
use openkernel.Graphics.Canvas.{spans}
use openkernel.Graphics.Display.{Mode, line_loop, display_putchar, display_puts_line}
use openkernel.Graphics.Display.Pixels.{Fits, pixel, ink}
use openkernel.Graphics.Display.Glyphs.{lit, glyph_of, display_putchar_lem}

-- A text up to its first newline.
unfoldable pub first_line : Text → Text
first_line [] = []
first_line (c ∷ cs) = if c == 10 then [] else c ∷ first_line cs

-- In a line of text, cells of 16 by 16 pixels, the pixel `dx` to the right and `dy` down is lit.
unfoldable pub line_lit : Text → ℕ → ℕ → Bool
line_lit [] dx dy = false
line_lit (c ∷ cs) dx dy =
    if ltb dx 16 then lit (glyph_of c (dy / 2)) (dx / 2) else line_lit cs (dx - 16) dy

module _ (d : Mode) (f : Fits d) (color y : ℕ) (fy : y + 16 ≤ 2 ^ 32)
    (narrow : d.width < 2 ^ 16) where
  line_loop_lem :
      (cs : Text) (k cx : ℕ) (m : Bytes) (i j : ℕ)
      → i < d.width
      → j < d.height
      → cx + 16 * k ≤ d.width
      → pixel d (line_loop d cs k cx y color m) i j ≡ (
          if leb cx i && spans y 16 j && line_lit (take k (first_line cs)) (i - cx) (j - y)
          then ink d color
          else pixel d m i j)
  unfolding line_loop first_line line_lit
  line_loop_lem [] zero cx m i j p q h = ground arith
  line_loop_lem [] (suc k) cx m i j p q h = ground arith
  line_loop_lem (c ∷ cs) zero cx m i j p q h = ground arith
  line_loop_lem (c ∷ cs) (suc k) cx m i j p q h =
      let m' = display_putchar d c cx y color m in
      let next = (cx + 16) % 2 ^ 32 in
      let step : i - cx - 16 ≡ i - next = omega arith in
      ground (
        arith,
        step,
        line_loop_lem cs k next m' i j p q (omega arith),
        display_putchar_lem d f color c cx y m i j p q,
      )

  -- On a display that is ready, of 8, 16 or 32 bits and fewer than 65536 columns, whose rows hold
  -- their pixels within 32 bits, with the 16 rows of the line at numbers of 32 bits: a pixel of the
  -- display gets the colour where the text up to its first newline, cut to the characters that fit
  -- between `x` and the right edge, is lit, and is as before elsewhere.
  pub display_puts_line_lem :
      (str : Text) (x : ℕ) (m : Bytes) (i j : ℕ)
      → i < d.width
      → j < d.height
      → pixel d (display_puts_line d str x y color m) i j ≡ (
          if leb x i
            && spans y 16 j
            && line_lit (take ((d.width - x) / 16) (first_line str)) (i - x) (j - y)
          then ink d color
          else pixel d m i j)
  unfolding display_puts_line
  display_puts_line_lem str x m i j p q =
      ground (arith, f.ready, line_loop_lem str ((d.width - x) / 16) x m i j p q)
