-- ===== src/Graphics/Framebuffer/Pixels.antt =====
-- A frame buffer that the boot loader describes soundly is a surface for drawing.
use openkernel.Base.{
  ℕ, ◌+◌, ◌-◌, ◌*◌, ◌%◌, ◌^◌, ◌≤◌, ◌<◌, ◌≡◌, true, ◌&&◌, ◌||◌, ltb, ◌==◌, if◌then◌else◌, arith,
}
use openkernel.Graphics.Bytes.{
  Bytes, store32, load32, store32-outside, load32-store32, load32-store32_apart,
}
use openkernel.Graphics.Offsets.{row_inside, pixel_inside, surface}
use openkernel.Graphics.Canvas.{
  Canvas, spans, fill_rect_lem, draw_rect_lem, fill_rect-keeps, draw_rect-keeps,
}
use openkernel.Graphics.Framebuffer.{Framebuffer, fb_putpixel, fb_fill_rect, fb_draw_rect}

-- It is ready, its rows hold their pixels, and the bytes of all rows have offsets of 32 bits.
pub record Fits (f : Framebuffer) : Type 0 where
  pub initialized : f.fb_initialized ≡ true
  pub row : 4 * f.fb.width ≤ f.fb.pitch
  pub size : f.fb.pitch * f.fb.height ≤ 2 ^ 32

-- The pixel in column `i` of row `j`.
abbrev pub pixel : Framebuffer → Bytes → ℕ → ℕ → ℕ
pixel f m i j = load32 m (j * f.fb.pitch + i * 4)

module _ (f : Framebuffer) (h : Fits f) where
  putpixel_lem :
      (x y color : ℕ) (m : Bytes)
      → fb_putpixel f x y color m ≡ (
          if ltb x f.fb.width && ltb y f.fb.height
          then store32 m (y * f.fb.pitch + x * 4) color
          else m)
  unfolding fb_putpixel
  putpixel_lem x y color m = ground (
    arith,
    h.initialized,
    h.size,
    row_inside y f.fb.height f.fb.pitch,
    pixel_inside 4 x f.fb.width f.fb.pitch h.row,
  )

  putpixel-outside :
      (x y color : ℕ) (m : Bytes) (b : ℕ)
      → f.fb.pitch * f.fb.height ≤ b
      → fb_putpixel f x y color m b ≡ m b
  putpixel-outside x y color m b o = rw (putpixel_lem x y color m) (
      ground (
        arith,
        store32-outside m (y * f.fb.pitch + x * 4) color b,
        row_inside y f.fb.height f.fb.pitch,
        pixel_inside 4 x f.fb.width f.fb.pitch h.row,
      ))

  abbrev canvas : Canvas Bytes
  canvas =
      surface 4 f.fb.width f.fb.height f.fb.pitch store32 load32 (λ c. c % 2 ^ 32) (fb_putpixel f)
        h.row load32-store32 load32-store32_apart putpixel_lem

  -- On a frame buffer that is ready, whose rows hold their pixels within 32 bits, a rectangle whose
  -- right and lower ends are numbers of 32 bits is filled: a pixel of the buffer gets the colour if
  -- it is in the rectangle and is as before otherwise, and no byte after the buffer changes.
  pub fb_fill_rect_lem :
      (x y w hh color : ℕ) (m : Bytes)
      → x + w ≤ 2 ^ 32
      → y + hh ≤ 2 ^ 32
      → ((i j : ℕ)
          → i < f.fb.width
          → j < f.fb.height
          → pixel f (fb_fill_rect f x y w hh color m) i j
            ≡ (if spans x w i && spans y hh j then color % 2 ^ 32 else pixel f m i j))
        × ((b : ℕ) → f.fb.pitch * f.fb.height ≤ b → fb_fill_rect f x y w hh color m b ≡ m b)
  unfolding fb_fill_rect
  fb_fill_rect_lem x y w hh color m fx fy = (
    λ i j p q. fill_rect_lem canvas x y color w hh m i j p q fx fy,
    λ b o.
        fill_rect-keeps (fb_putpixel f) (λ s. s b) (λ a c k s. putpixel-outside a c k s b o) x y
          color w hh m,
  )

  -- On a frame buffer that is ready, whose rows hold their pixels within 32 bits, the outline of a
  -- rectangle that is not empty and whose right and lower ends are numbers of 32 bits is drawn: a
  -- pixel of the buffer gets the colour if it is on the border of the rectangle and is as before
  -- otherwise, and no byte after the buffer changes.
  pub fb_draw_rect_lem :
      (x y w hh color : ℕ) (m : Bytes)
      → 1 ≤ w
      → 1 ≤ hh
      → x + w ≤ 2 ^ 32
      → y + hh ≤ 2 ^ 32
      → ((i j : ℕ)
          → i < f.fb.width
          → j < f.fb.height
          → pixel f (fb_draw_rect f x y w hh color m) i j ≡ (
              if spans x w i
                && spans y hh j
                && ((x == i) || (x + w - 1 == i) || (y == j) || (y + hh - 1 == j))
              then color % 2 ^ 32
              else pixel f m i j))
        × ((b : ℕ) → f.fb.pitch * f.fb.height ≤ b → fb_draw_rect f x y w hh color m b ≡ m b)
  unfolding fb_draw_rect
  fb_draw_rect_lem x y w hh color m fw fh fx fy = (
    λ i j p q. draw_rect_lem canvas x y color w hh m i j p q fw fh fx fy,
    λ b o.
        draw_rect-keeps (fb_putpixel f) (λ s. s b) (λ a c k s. putpixel-outside a c k s b o) x y
          color w hh m,
  )
