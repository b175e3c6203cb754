-- ===== src/Graphics/Offsets.antt =====
-- A surface whose pixels take `n` bytes each, in rows of `pitch` bytes: what a store to one pixel
-- does to the others.
use openkernel.Base.{ℕ, ◌+◌, ◌*◌, ◌≤◌, ◌<◌, ◌≡◌, ◌⊎◌, ◌&&◌, ltb, ◌==◌, if◌then◌else◌, arith}
use openkernel.Graphics.Bytes.{Bytes}
use openkernel.Graphics.Canvas.{Canvas}

-- Rows do not overlap, nor do the pixels of a row.
rows_apart : (a b pitch : ℕ) → a < b → a * pitch + pitch ≤ b * pitch
rows_apart a b pitch h = grind arith

-- A row of the surface ends inside it.
pub row_inside : (y height pitch : ℕ) → y < height → y * pitch + pitch ≤ pitch * height
row_inside y height pitch h = grind arith

-- A pixel of a row ends inside it.
pub pixel_inside : (n x width pitch : ℕ) → n * width ≤ pitch → x < width → x * n + n ≤ pitch
pixel_inside n x width pitch f p = grind arith

pixels_apart :
    (n s t y j pitch : ℕ)
    → s + n ≤ pitch
    → t + n ≤ pitch
    → s + n ≤ t ⊎ t + n ≤ s ⊎ y < j ⊎ j < y
    → y ≡ j ⊎ y < j ⊎ j < y
    → j * pitch + t + n ≤ y * pitch + s ⊎ y * pitch + s + n ≤ j * pitch + t
pixels_apart n s t y j pitch p q h k = ground (arith, rows_apart y j pitch, rows_apart j y pitch)

module _ (n width height pitch : ℕ) (store : Bytes → ℕ → ℕ → Bytes) (load : Bytes → ℕ → ℕ)
    (ink : ℕ → ℕ) (put : ℕ → ℕ → ℕ → Bytes → Bytes) (row : n * width ≤ pitch)
    (loads : (m : Bytes) (a c : ℕ) → load (store m a c) a ≡ ink c)
    (keeps : (m : Bytes) (a c b : ℕ) → b + n ≤ a ⊎ a + n ≤ b → load (store m a c) b ≡ load m b)
    (puts : (x y c : ℕ) (m : Bytes)
      → put x y c m
        ≡ (if ltb x width && ltb y height then store m (y * pitch + x * n) c else m)) where
  pub put_pixel :
      (x y color : ℕ) (m : Bytes) (i j : ℕ)
      → i < width
      → j < height
      → load (put x y color m) (j * pitch + i * n)
        ≡ (if (x == i) && (y == j) then ink color else load m (j * pitch + i * n))
  put_pixel x y color m i j p q = ground (
    arith,
    puts x y color m,
    loads m (j * pitch + i * n) color,
    keeps m (y * pitch + x * n) color (j * pitch + i * n),
    pixels_apart n (x * n) (i * n) y j pitch,
    pixel_inside n x width pitch row,
    pixel_inside n i width pitch row,
    rows_apart x i n,
    rows_apart i x n,
  )

  -- Such a surface is a canvas.
  abbrev pub surface : Canvas Bytes
  surface = record {
    width = width;
    height = height;
    put = put;
    pixel = λ m i j. load m (j * pitch + i * n);
    ink = ink;
    put_lem = put_pixel;
  }
