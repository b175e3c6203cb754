-- ===== src/Graphics/Display/Glyphs.antt =====
-- The glyphs that src/kernel/display.c draws, and a line of them.
use Prim.Native.Nat.{bit_and}
use openkernel.Base.{
  ℕ, zero, suc, ◌+◌, ◌-◌, ◌*◌, ◌/◌, ◌%◌, ◌^◌, ◌≤◌, ◌<◌, ◌≡◌, inl, inr, Bool-cases, refl, Bool, true,
  ◌&&◌, ◌||◌, not, ltb, ◌==◌, if◌then◌else◌, arith,
}
use native.Mathlib.Nat.{one-le-pow}
use openkernel.Base.Bits.{bit, bit-lt, bit_and_pow}
use openkernel.Graphics.Bytes.{Bytes}
use openkernel.Graphics.Canvas.{spans, fill_rect, fill_rect_lem}
use openkernel.Graphics.Display.{
  Mode, display_putpixel, glyph_cols, glyph_rows, display_putchar, select_glyph,
}
use openkernel.Graphics.Display.Pixels.{Fits, pixel, ink, canvas}

-- Column `col` of a row of a glyph is lit: the highest bit is the leftmost column.
abbrev pub lit : ℕ → ℕ → Bool
lit bitmap col = bit (7 - col) bitmap == 1

eighth : (col : ℕ) → col < 8 → 0x80 / 2 ^ col ≡ 2 ^ (7 - col)
eighth zero h = refl
eighth (suc zero) h = refl
eighth (suc (suc zero)) h = refl
eighth (suc (suc (suc zero))) h = refl
eighth (suc (suc (suc (suc zero)))) h = refl
eighth (suc (suc (suc (suc (suc zero))))) h = refl
eighth (suc (suc (suc (suc (suc (suc zero)))))) h = refl
eighth (suc (suc (suc (suc (suc (suc (suc zero))))))) h = refl
eighth (suc (suc (suc (suc (suc (suc (suc (suc n)))))))) h = absurd (omega arith)

test_lit :
    (bitmap col : ℕ) → col < 8 → (bit_and bitmap (0x80 / 2 ^ col) == 0) ≡ not (lit bitmap col)
test_lit bitmap col h =
    rw (eighth col h, bit_and_pow (7 - col) bitmap)
      (grind (arith, bit-lt (7 - col) bitmap, one-le-pow (7 - col) 2))

module _ (d : Mode) (f : Fits d) (x color : ℕ) (room : x + 16 ≤ 2 ^ 32) where
  glyph_cols_lem :
      (y bitmap k col : ℕ) (m : Bytes) (i j : ℕ)
      → i < d.width
      → j < d.height
      → col + k ≤ 8
      → y + 2 ≤ 2 ^ 32
      → pixel d (glyph_cols d x y color bitmap k col m) i j ≡ (
          if spans (x + col * 2) (k * 2) i && spans y 2 j && lit bitmap ((i - x) / 2)
          then ink d color
          else pixel d m i j)
  unfolding glyph_cols
  glyph_cols_lem y bitmap zero col m i j p q h e = ground arith
  glyph_cols_lem y bitmap (suc k) col m i j p q h e =
      let col_of : spans (x + col * 2) 2 i ≡ true → (i - x) / 2 ≡ col = λ s. ground arith in
      let rest = λ (m' : Bytes). glyph_cols_lem y bitmap k (col + 1) m' i j p q (omega arith) e in
      let square = fill_rect (display_putpixel d) ((x + col * 2) % 2 ^ 32) y color 2 2 m in
      let painted = fill_rect_lem (canvas d f) ((x + col * 2) % 2 ^ 32) y color 2 2 m i j p q in
      elim (Bool-cases (lit bitmap col)) [
        | inl on ↦ rw (test_lit bitmap col (omega arith), on) (ground (arith, rest square, painted))
        | inr off ↦ rw (test_lit bitmap col (omega arith), off) (ground (arith, rest m, col_of))
      ]

  glyph_rows_lem :
      (y : ℕ) (glyph : ℕ → ℕ) (k row : ℕ) (m : Bytes) (i j : ℕ)
      → i < d.width
      → j < d.height
      → row + k ≤ 8
      → y + 16 ≤ 2 ^ 32
      → pixel d (glyph_rows d x y color glyph k row m) i j ≡ (
          if spans x 16 i
            && spans (y + row * 2) (k * 2) j
            && lit (glyph ((j - y) / 2)) ((i - x) / 2)
          then ink d color
          else pixel d m i j)
  unfolding glyph_rows
  glyph_rows_lem y glyph zero row m i j p q h e = ground arith
  glyph_rows_lem y glyph (suc k) row m i j p q h e =
      let y' = (y + row * 2) % 2 ^ 32 in
      let m' = glyph_cols d x y' color (glyph row) 8 0 m in
      let row_of : spans (y + row * 2) 2 j ≡ true → (j - y) / 2 ≡ row = λ s. ground arith in
      ground (
        arith,
        row_of,
        glyph_rows_lem y glyph k (row + 1) m' i j p q,
        glyph_cols_lem y' (glyph row) 8 0 m i j p q,
      )

-- The glyph that is drawn for a byte.
abbrev pub glyph_of : ℕ → ℕ → ℕ
glyph_of c = select_glyph (if ltb c 32 || ltb 126 c then 32 else c)

module _ (d : Mode) (f : Fits d) (color : ℕ) where
  -- A character with its 16 by 16 pixels at numbers of 32 bits: a pixel of the display gets the
  -- colour where the glyph, at twice its size, is lit, and is as before elsewhere.
  pub display_putchar_lem :
      (c x y : ℕ) (m : Bytes) (i j : ℕ)
      → i < d.width
      → j < d.height
      → x + 16 ≤ 2 ^ 32
      → y + 16 ≤ 2 ^ 32
      → pixel d (display_putchar d c x y color m) i j ≡ (
          if spans x 16 i && spans y 16 j && lit (glyph_of c ((j - y) / 2)) ((i - x) / 2)
          then ink d color
          else pixel d m i j)
  unfolding display_putchar
  display_putchar_lem c x y m i j p q fx fy =
      ground (arith, f.ready, glyph_rows_lem d f x color fx y (glyph_of c) 8 0 m i j p q)
