-- ===== src/Graphics/Canvas.antt =====
-- What the drawing loops need of a surface, and the loops that src/kernel/framebuffer.c and
-- src/kernel/display.c both have, over the function that plots a pixel.
use openkernel.Base.{
  ℕ, zero, suc, ◌+◌, ◌-◌, ◌%◌, ◌^◌, ◌≤◌, ◌<◌, ◌≡◌, refl, ◌∙◌, Bool, ◌&&◌, ◌||◌, ltb, leb, ◌==◌,
  if◌then◌else◌, arith,
}

-- A surface of `width` times `height` pixels: plotting changes the pixel at the coordinates, if it
-- is on the surface, to what the surface makes of the colour, and no other.
pub record Canvas (S : Type 0) : Type 0 where
  pub width : ℕ
  pub height : ℕ
  pub put : ℕ → ℕ → ℕ → S → S
  pub pixel : S → ℕ → ℕ → ℕ
  pub ink : ℕ → ℕ
  pub put_lem :
      (x y color : ℕ) (s : S) (i j : ℕ)
      → i < width
      → j < height
      → pixel (put x y color s) i j ≡ (if (x == i) && (y == j) then ink color else pixel s i j)

-- `i` is one of the `n` coordinates from `a`.
abbrev pub spans : ℕ → ℕ → ℕ → Bool
spans a n i = leb a i && ltb i (a + n)

module _ {S : Type 0} (put : ℕ → ℕ → ℕ → S → S) (x y color : ℕ) where
  -- The loop over the columns of a row, with `k` rounds left.
  unfoldable pub fill_cols : ℕ → ℕ → ℕ → S → S
  fill_cols zero col row s = s
  fill_cols (suc k) col row s =
      fill_cols k (col + 1) row (put ((x + col) % 2 ^ 32) ((y + row) % 2 ^ 32) color s)

  unfoldable pub fill_rows : ℕ → ℕ → ℕ → S → S
  fill_rows zero row w s = s
  fill_rows (suc k) row w s = fill_rows k (row + 1) w (fill_cols w 0 row s)

  unfoldable pub fill_rect : ℕ → ℕ → S → S
  fill_rect w h s = fill_rows h 0 w s

  -- The loop over the top and bottom edges.
  unfoldable pub flat_edges : ℕ → ℕ → ℕ → S → S
  flat_edges zero col h s = s
  flat_edges (suc k) col h s = flat_edges k (col + 1) h (
      put ((x + col) % 2 ^ 32) ((y + h + (2 ^ 32 - 1)) % 2 ^ 32) color
        (put ((x + col) % 2 ^ 32) y color s))

  -- The loop over the left and right edges.
  unfoldable pub steep_edges : ℕ → ℕ → ℕ → S → S
  steep_edges zero row w s = s
  steep_edges (suc k) row w s = steep_edges k (row + 1) w (
      put ((x + w + (2 ^ 32 - 1)) % 2 ^ 32) ((y + row) % 2 ^ 32) color
        (put x ((y + row) % 2 ^ 32) color s))

  unfoldable pub draw_rect : ℕ → ℕ → S → S
  draw_rect w h s = steep_edges h 0 w (flat_edges w 0 h s)

module _ {S : Type 0} (c : Canvas S) (x y color : ℕ) where
  open c use {width, height, put, pixel, ink, put_lem}

  fill_cols_lem :
      (k col row : ℕ) (s : S) (i j : ℕ)
      → i < width
      → j < height
      → x + col + k ≤ 2 ^ 32
      → y + row < 2 ^ 32
      → pixel (fill_cols put x y color k col row s) i j
        ≡ (if spans (x + col) k i && (y + row == j) then ink color else pixel s i j)
  unfolding fill_cols
  fill_cols_lem zero col row s i j p q fx fy = ground arith
  fill_cols_lem (suc k) col row s i j p q fx fy =
      let s' = put ((x + col) % 2 ^ 32) ((y + row) % 2 ^ 32) color s in
      ground (
        arith,
        fill_cols_lem k (col + 1) row s' i j p q,
        put_lem ((x + col) % 2 ^ 32) ((y + row) % 2 ^ 32) color s i j p q,
      )

  fill_rows_lem :
      (k row w : ℕ) (s : S) (i j : ℕ)
      → i < width
      → j < height
      → x + w ≤ 2 ^ 32
      → y + row + k ≤ 2 ^ 32
      → pixel (fill_rows put x y color k row w s) i j
        ≡ (if spans x w i && spans (y + row) k j then ink color else pixel s i j)
  unfolding fill_rows
  fill_rows_lem zero row w s i j p q fx fy = ground arith
  fill_rows_lem (suc k) row w s i j p q fx fy =
      let s' = fill_cols put x y color w 0 row s in
      ground (arith, fill_rows_lem k (row + 1) w s' i j p q, fill_cols_lem w 0 row s i j p q)

  -- Every pixel of the rectangle that is on the surface has the colour, every other is as before.
  pub fill_rect_lem :
      (w h : ℕ) (s : S) (i j : ℕ)
      → i < width
      → j < height
      → x + w ≤ 2 ^ 32
      → y + h ≤ 2 ^ 32
      → pixel (fill_rect put x y color w h s) i j
        ≡ (if spans x w i && spans y h j then ink color else pixel s i j)
  unfolding fill_rect
  fill_rect_lem w h s i j p q fx fy = ground (arith, fill_rows_lem h 0 w s i j p q)

  flat_edges_lem :
      (k col h : ℕ) (s : S) (i j : ℕ)
      → i < width
      → j < height
      → x + col + k ≤ 2 ^ 32
      → y + h ≤ 2 ^ 32
      → 1 ≤ h
      → pixel (flat_edges put x y color k col h s) i j
        ≡ (if spans (x + col) k i && ((y == j) || (y + h - 1 == j)) then ink color else pixel s i j)
  unfolding flat_edges
  flat_edges_lem zero col h s i j p q fx fy fh = ground arith
  flat_edges_lem (suc k) col h s i j p q fx fy fh =
      let a = (x + col) % 2 ^ 32 in
      let b = (y + h + (2 ^ 32 - 1)) % 2 ^ 32 in
      let s' = put a y color s in
      ground (
        arith,
        flat_edges_lem k (col + 1) h (put a b color s') i j p q,
        put_lem a b color s' i j p q,
        put_lem a y color s i j p q,
      )

  steep_edges_lem :
      (k row w : ℕ) (s : S) (i j : ℕ)
      → i < width
      → j < height
      → y + row + k ≤ 2 ^ 32
      → x + w ≤ 2 ^ 32
      → 1 ≤ w
      → pixel (steep_edges put x y color k row w s) i j
        ≡ (if spans (y + row) k j && ((x == i) || (x + w - 1 == i)) then ink color else pixel s i j)
  unfolding steep_edges
  steep_edges_lem zero row w s i j p q fy fx fw = ground arith
  steep_edges_lem (suc k) row w s i j p q fy fx fw =
      let a = (x + w + (2 ^ 32 - 1)) % 2 ^ 32 in
      let b = (y + row) % 2 ^ 32 in
      let s' = put x b color s in
      ground (
        arith,
        steep_edges_lem k (row + 1) w (put a b color s') i j p q,
        put_lem a b color s' i j p q,
        put_lem x b color s i j p q,
      )

  -- Exactly the pixels of the rectangle's border that are on the surface have the colour.
  pub draw_rect_lem :
      (w h : ℕ) (s : S) (i j : ℕ)
      → i < width
      → j < height
      → 1 ≤ w
      → 1 ≤ h
      → x + w ≤ 2 ^ 32
      → y + h ≤ 2 ^ 32
      → pixel (draw_rect put x y color w h s) i j ≡ (
          if spans x w i
            && spans y h j
            && ((x == i) || (x + w - 1 == i) || (y == j) || (y + h - 1 == j))
          then ink color
          else pixel s i j)
  unfolding draw_rect
  draw_rect_lem w h s i j p q fw fh fx fy =
      let s' = flat_edges put x y color w 0 h s in
      ground (arith, steep_edges_lem h 0 w s' i j p q, flat_edges_lem w 0 h s i j p q)

-- What no plot changes, no drawing changes.
module _ {S V : Type 0} (put : ℕ → ℕ → ℕ → S → S) (view : S → V)
    (keep : (x y color : ℕ) (s : S) → view (put x y color s) ≡ view s) (x y color : ℕ) where
  fill_cols-keeps : (k col row : ℕ) (s : S) → view (fill_cols put x y color k col row s) ≡ view s
  unfolding fill_cols
  fill_cols-keeps zero col row s = refl
  fill_cols-keeps (suc k) col row s = fill_cols-keeps k (col + 1) row _ ∙ keep _ _ color s

  fill_rows-keeps : (k row w : ℕ) (s : S) → view (fill_rows put x y color k row w s) ≡ view s
  unfolding fill_rows
  fill_rows-keeps zero row w s = refl
  fill_rows-keeps (suc k) row w s = fill_rows-keeps k (row + 1) w _ ∙ fill_cols-keeps w 0 row s

  pub fill_rect-keeps : (w h : ℕ) (s : S) → view (fill_rect put x y color w h s) ≡ view s
  unfolding fill_rect
  fill_rect-keeps w h s = fill_rows-keeps h 0 w s

  flat_edges-keeps : (k col h : ℕ) (s : S) → view (flat_edges put x y color k col h s) ≡ view s
  unfolding flat_edges
  flat_edges-keeps zero col h s = refl
  flat_edges-keeps (suc k) col h s =
      flat_edges-keeps k (col + 1) h _ ∙ keep _ _ color _ ∙ keep _ _ color s

  steep_edges-keeps : (k row w : ℕ) (s : S) → view (steep_edges put x y color k row w s) ≡ view s
  unfolding steep_edges
  steep_edges-keeps zero row w s = refl
  steep_edges-keeps (suc k) row w s =
      steep_edges-keeps k (row + 1) w _ ∙ keep _ _ color _ ∙ keep _ _ color s

  pub draw_rect-keeps : (w h : ℕ) (s : S) → view (draw_rect put x y color w h s) ≡ view s
  unfolding draw_rect
  draw_rect-keeps w h s = steep_edges-keeps h 0 w _ ∙ flat_edges-keeps w 0 h s
