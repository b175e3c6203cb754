-- ===== src/Graphics/Display/Pixels.antt =====
-- A display of 8, 16 or 32 bits is a surface for drawing.
use mathlib.Core.Path.{subst}
use openkernel.Base.{
  ℕ, ◌+◌, ◌*◌, ◌/◌, ◌%◌, ◌^◌, ◌≤◌, ◌<◌, ◌≡◌, ◌⊎◌, inl, inr, true, ◌&&◌, ltb, ◌==◌, if◌then◌else◌,
  arith,
}
use openkernel.Graphics.Bytes.{
  Bytes, store8, store16, store32, load16, load32, load16-store16, load16-store16_apart,
  load32-store32, load32-store32_apart,
}
use openkernel.Graphics.Offsets.{row_inside, pixel_inside, put_pixel}
use openkernel.Graphics.Canvas.{Canvas, spans, fill_rect_lem}
use openkernel.Graphics.Display.{Mode, rgb_to_vga8, rgb_to_16, display_putpixel, display_fill_rect}

-- It is ready, has a depth that is drawn in, its rows hold their pixels, and the bytes of all rows
-- have offsets of 32 bits.
pub record Fits (d : Mode) : Type 0 where
  pub ready : d.available ≡ true
  pub depth : d.bpp ≡ 8 ⊎ d.bpp ≡ 16 ⊎ d.bpp ≡ 32
  pub row : d.bpp / 8 * d.width ≤ d.pitch
  pub size : d.pitch * d.height ≤ 2 ^ 32

-- The pixel in column `i` of row `j`.
unfoldable pub pixel : Mode → Bytes → ℕ → ℕ → ℕ
pixel d m i j =
    if d.bpp == 8
    then m (j * d.pitch + i * 1)
    else (if d.bpp == 32 then load32 m (j * d.pitch + i * 4) else load16 m (j * d.pitch + i * 2))

-- What a mode makes of a colour.
unfoldable pub ink : Mode → ℕ → ℕ
ink d color =
    if d.bpp == 8
    then rgb_to_vga8 color % 2 ^ 8
    else (if d.bpp == 32 then color % 2 ^ 32 else rgb_to_16 color % 2 ^ 16)

load8-store8 : (m : Bytes) (a v : ℕ) → store8 m a v a ≡ v % 2 ^ 8
unfolding store8
load8-store8 m a v = ground arith

load8-store8_apart : (m : Bytes) (a v b : ℕ) → b + 1 ≤ a ⊎ a + 1 ≤ b → store8 m a v b ≡ m b
unfolding store8
load8-store8_apart m a v b h = ground arith

module _ (d : Mode) (h : Fits d) where
  pub row_of : (n : ℕ) → d.bpp / 8 ≡ n → n * d.width ≤ d.pitch
  row_of n e = subst (λ t. t * d.width ≤ d.pitch) e h.row

  put8 :
      d.bpp ≡ 8
      → (x y c : ℕ) (m : Bytes)
      → display_putpixel d x y c m ≡ (
          if ltb x d.width && ltb y d.height
          then store8 m (y * d.pitch + x * 1) (rgb_to_vga8 c)
          else m)
  unfolding display_putpixel
  put8 e x y c m = ground (
    arith,
    h.ready,
    h.size,
    row_inside y d.height d.pitch,
    pixel_inside 1 x d.width d.pitch (row_of 1 (omega arith)),
  )

  put16 :
      d.bpp ≡ 16
      → (x y c : ℕ) (m : Bytes)
      → display_putpixel d x y c m ≡ (
          if ltb x d.width && ltb y d.height
          then store16 m (y * d.pitch + x * 2) (rgb_to_16 c)
          else m)
  unfolding display_putpixel
  put16 e x y c m = ground (
    arith,
    h.ready,
    h.size,
    row_inside y d.height d.pitch,
    pixel_inside 2 x d.width d.pitch (row_of 2 (omega arith)),
  )

  pub put32 :
      d.bpp ≡ 32
      → (x y c : ℕ) (m : Bytes)
      → display_putpixel d x y c m
        ≡ (if ltb x d.width && ltb y d.height then store32 m (y * d.pitch + x * 4) c else m)
  unfolding display_putpixel
  put32 e x y c m = ground (
    arith,
    h.ready,
    h.size,
    row_inside y d.height d.pitch,
    pixel_inside 4 x d.width d.pitch (row_of 4 (omega arith)),
  )

  pub pixel-put :
      (x y color : ℕ) (m : Bytes) (i j : ℕ)
      → i < d.width
      → j < d.height
      → pixel d (display_putpixel d x y color m) i j
        ≡ (if (x == i) && (y == j) then ink d color else pixel d m i j)
  unfolding pixel ink
  pixel-put x y color m i j p q = elim h.depth [
    | inl e ↦
        let store : Bytes → ℕ → ℕ → Bytes = λ m a c. store8 m a (rgb_to_vga8 c) in
        ground (
          arith,
          put_pixel 1 d.width d.height d.pitch store (λ m a. m a) (λ c. rgb_to_vga8 c % 2 ^ 8)
              (display_putpixel d) (row_of 1 (omega arith))
              (λ m a c. load8-store8 m a (rgb_to_vga8 c))
              (λ m a c. load8-store8_apart m a (rgb_to_vga8 c)) (put8 e) x y color m i j p q,
        )
    | inr (inl e) ↦
        let store : Bytes → ℕ → ℕ → Bytes = λ m a c. store16 m a (rgb_to_16 c) in
        ground (
          arith,
          put_pixel 2 d.width d.height d.pitch store load16 (λ c. rgb_to_16 c % 2 ^ 16)
              (display_putpixel d) (row_of 2 (omega arith))
              (λ m a c. load16-store16 m a (rgb_to_16 c))
              (λ m a c. load16-store16_apart m a (rgb_to_16 c)) (put16 e) x y color m i j p q,
        )
    | inr (inr e) ↦
        let store : Bytes → ℕ → ℕ → Bytes = λ m a c. store32 m a c in
        ground (
          arith,
          put_pixel 4 d.width d.height d.pitch store load32 (λ c. c % 2 ^ 32) (display_putpixel d)
              (row_of 4 (omega arith)) (λ m a c. load32-store32 m a c)
              (λ m a c. load32-store32_apart m a c) (put32 e) x y color m i j p q,
        )
  ]

  abbrev pub canvas : Canvas Bytes
  canvas = record {
    width = d.width;
    height = d.height;
    put = display_putpixel d;
    pixel = pixel d;
    ink = ink d;
    put_lem = pixel-put;
  }

  -- On a display that is ready, of 8, 16 or 32 bits, whose rows hold their pixels within 32 bits, a
  -- rectangle whose right and lower ends are numbers of 32 bits is filled: a pixel of the display is
  -- what the depth makes of the colour if it is in the rectangle, and is as before otherwise.
  pub display_fill_rect_lem :
      (x y w hh color : ℕ) (m : Bytes) (i j : ℕ)
      → i < d.width
      → j < d.height
      → x + w ≤ 2 ^ 32
      → y + hh ≤ 2 ^ 32
      → pixel d (display_fill_rect d x y w hh color m) i j
        ≡ (if spans x w i && spans y hh j then ink d color else pixel d m i j)
  unfolding display_fill_rect
  display_fill_rect_lem x y w hh color m i j p q fx fy =
      fill_rect_lem canvas x y color w hh m i j p q fx fy
