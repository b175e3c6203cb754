-- ===== src/Graphics/Display/Clear.antt =====
-- Clearing a display of 32 bits is filling all of it.
use openkernel.Base.{
  ℕ, zero, suc, ◌+◌, ◌*◌, ◌/◌, ◌%◌, ◌^◌, ◌≤◌, ◌<◌, ◌≡◌, ◌≢◌, ◌∙◌, refl, ap, arith,
}
use native.Mathlib.Nat.{mul_left_comm}
use openkernel.Graphics.Bytes.{Bytes, store32}
use openkernel.Graphics.Offsets.{row_inside, pixel_inside}
use openkernel.Graphics.Canvas.{fill_cols, fill_rows, fill_rect}
use openkernel.Graphics.Display.{
  Mode, disp_vga_text, display_putpixel, display_fill_rect, clear_row, clear_rows, display_clear,
}
use openkernel.Graphics.Display.Pixels.{Fits, row_of, put32}

row_words : (y q p : ℕ) → p ≡ 4 * q → y * p ≡ 4 * (y * q)
row_words y q p h = ap (λ t. y * t) h ∙ mul_left_comm y 4 q

module _ (d : Mode) (f : Fits d) (deep : d.bpp ≡ 32) (whole : d.pitch % 4 ≡ 0)
    (small : d.width < 2 ^ 16) (low : d.height < 2 ^ 16) (color : ℕ) where
  -- The word that is stored is that of the pixel.
  clear_pixel :
      (x y : ℕ) (m : Bytes)
      → x < d.width
      → y < d.height
      → store32 m ((y * (d.pitch / 4) + x) % 2 ^ 32 * 4) color
        ≡ display_putpixel d ((0 + x) % 2 ^ 32) ((0 + y) % 2 ^ 32) color m
  clear_pixel x y m p q =
      let words : y * d.pitch ≡ 4 * (y * (d.pitch / 4)) =
        row_words y (d.pitch / 4) d.pitch (omega (arith, whole)) in
      let inside = row_inside y d.height d.pitch q in
      let fits = pixel_inside 4 x d.width d.pitch (row_of d f 4 (omega (arith, deep))) p in
      let at : (y * (d.pitch / 4) + x) % 2 ^ 32 * 4 ≡ y * d.pitch + x * 4 =
        omega (arith, words, inside, fits, f.size) in
      ground (arith, at, put32 d f deep x y color m)

  clear_row_lem :
      (y k x : ℕ) (m : Bytes)
      → y < d.height
      → x + k ≤ d.width
      → clear_row d y k x color m ≡ fill_cols (display_putpixel d) 0 0 color k x y m
  unfolding clear_row fill_cols
  clear_row_lem y zero x m q h = refl
  clear_row_lem y (suc k) x m q h =
      let m' = store32 m ((y * (d.pitch / 4) + x) % 2 ^ 32 * 4) color in
      let rest = clear_row_lem y k (x + 1) m' q (omega arith) in
      ground (arith, rest, clear_pixel x y m (omega arith) q)

  clear_rows_lem :
      (k y : ℕ) (m : Bytes)
      → y + k ≤ d.height
      → clear_rows d k y color m ≡ fill_rows (display_putpixel d) 0 0 color k y d.width m
  unfolding clear_rows fill_rows
  clear_rows_lem zero y m h = refl
  clear_rows_lem (suc k) y m h =
      clear_rows_lem k (y + 1) _ (omega arith)
      ∙ ap (fill_rows (display_putpixel d) 0 0 color k (y + 1) d.width)
          (clear_row_lem y d.width 0 m (omega arith) (omega arith))

  -- On a display of 32 bits that is no text screen, is ready, has rows that hold their pixels within
  -- 32 bits and are a number of words long, and has fewer than 65536 columns and rows, display_clear
  -- does what display_fill_rect does with the whole screen.
  pub display_clear_lem :
      d.type ≢ disp_vga_text
      → (m : Bytes) → display_clear d color m ≡ display_fill_rect d 0 0 d.width d.height color m
  unfolding display_clear display_fill_rect fill_rect
  display_clear_lem g m =
      let e = clear_rows_lem d.height 0 m (omega arith) in ground (arith, f.ready, e)
