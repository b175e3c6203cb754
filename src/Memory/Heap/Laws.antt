-- ===== src/Memory/Heap/Laws.antt =====
-- What `heap_init`, `kmalloc` and `kfree` promise about the list of blocks.
use openkernel.Base.{
  ℕ, zero, suc, ◌+◌, ◌-◌, ◌%◌, ◌^◌, ◌≤◌, ◌<◌, ◌≡◌, ◌≢◌, refl, ap, inl, inr, Bool, true, false, some,
  List, [], ◌∷◌, arith, ltb, ◌==◌, Bool-cases, ==_refl,
}
use openkernel.Base.Bits.{bit_and_align}
use openkernel.Memory.Heap.{
  Heap, heap_base, heap_size, header_size, u32, heap_init, align16, heap_fuel, best_fit_loop,
  take_block, kmalloc, kfree,
}
use openkernel.Memory.Heap.Chain.{
  Cell, Chain, BlockAt, carve, carve_cell, release, merge_cell, Chain-take_block,
  Chain-release_block, Chain-length, BlockAt-limit, BlockAt-size, BlockAt-le,
}
use openkernel.Memory.Heap.Live.{carve-BlockAt, carve_other, release_other}
use openkernel.Memory.Heap.Find.{Best, best_fit_loop-Best}

-- The heap holds the blocks `cs`, which tile it from its base to its end.
abbrev pub Blocks : Heap → List Cell → Type 0
Blocks h cs = Chain h.block_at h.heap_start heap_base cs

-- After `heap_init` the heap is one free block.
pub heap_init-Blocks :
    (h : Heap) → Blocks (heap_init h) (record { size = heap_size - header_size; free = true } ∷ [])
unfolding heap_init
heap_init-Blocks h = (refl, refl, refl, (refl, refl))

-- A request is rounded up to the next multiple of 16, unless the sum wraps around.
pub align16_bounds :
    (size : ℕ)
    → size + 15 < 2 ^ 32
    → (align16 size % 16 ≡ 0) × (size ≤ align16 size) × (align16 size < size + 16)
unfolding align16
align16_bounds size h =
    let word : u32 (size + 15) ≡ size + 15 = omega arith in
    rw (word, bit_and_align (size + 15) h) (omega arith, omega arith, omega arith)

-- A block that `kmalloc` may choose: free, large enough, and no larger than any other such block.
pub record BestFit (cs : List Cell) (n r s : ℕ) : Type 0 where
  pub at : BlockAt heap_base cs r s true
  pub fits : n ≤ s
  pub least : (a t : ℕ) → BlockAt heap_base cs a t true → n ≤ t → s ≤ t

-- The two outcomes of `kmalloc`.
pub data Malloc (size : ℕ) (h : Heap) (cs : List Cell) : ℕ → Heap → Type 0 where
  none_fits : ((a t : ℕ) → BlockAt heap_base cs a t true → t < align16 size) → Malloc size h cs 0 h
  taken :
      {h' : Heap} (r s : ℕ)
      → BestFit cs (align16 size) r s
      → Blocks h' (carve heap_base cs r (align16 size))
      → (t : ℕ) × BlockAt heap_base (carve heap_base cs r (align16 size)) r t false
        × (align16 size ≤ t)
      → Malloc size h cs (r + header_size) h'

kmalloc_null :
    (size : ℕ) (h : Heap) (cs : List Cell)
    → 0 < size
    → best_fit_loop heap_fuel h.block_at (align16 size) h.heap_start 0 ≡ some 0
    → Best h.block_at (align16 size) heap_base cs 0 0
    → (kmalloc size h ≡ some (0, h)) × Malloc size h cs 0 h
unfolding kmalloc
kmalloc_null size h cs pos e b =
    let asked : (size == 0) ≡ false = ground arith in
    (rw (asked, e), none_fits λ a t at. grind (arith, b.least a t at))

kmalloc_found :
    (size : ℕ) (h : Heap) (cs : List Cell) (r s : ℕ)
    → Blocks h cs
    → 0 < size
    → best_fit_loop heap_fuel h.block_at (align16 size) h.heap_start 0 ≡ some r
    → BestFit cs (align16 size) r s
    → (h' : Heap) × (kmalloc size h ≡ some (r + header_size, h'))
      × Malloc size h cs (r + header_size) h'
unfolding kmalloc
kmalloc_found size h cs r s blocks pos e b =
    let asked : (size == 0) ≡ false = ground arith in
    let low = BlockAt-le cs heap_base r s true b.at in
    let high = BlockAt-limit h.block_at cs _ heap_base r s true blocks b.at in
    let found : (r == 0) ≡ false = ground arith in
    let word : u32 (r + header_size) ≡ r + header_size = omega arith in
    (
      record h { block_at = take_block h.block_at (align16 size) r },
      rw (asked, e, found, word),
      taken r s b
          (Chain-take_block h.block_at cs _ heap_base r s (align16 size) true blocks b.at b.fits)
          (carve-BlockAt cs heap_base r s (align16 size) true b.at b.fits),
    )

-- A block cannot be both free and taken.
pub BlockAt-free :
    (cs : List Cell) (lo r s a t : ℕ) → a ≡ r → BlockAt lo cs r s true → BlockAt lo cs a t false → ⊥
BlockAt-free [] lo r s a t e at at' = at
BlockAt-free (c ∷ cs) lo r s a t e (inl at) (inl at') = cc
BlockAt-free (c ∷ cs) lo r s a t e (inl at) (inr at') = omega (arith, BlockAt-le cs _ a t false at')
BlockAt-free (c ∷ cs) lo r s a t e (inr at) (inl at') = omega (arith, BlockAt-le cs _ r s true at)
BlockAt-free (c ∷ cs) lo r s a t e (inr at) (inr at') = BlockAt-free cs _ r s a t e at at'

-- On a heap that is tiled by blocks, `kmalloc` of a positive size always returns. The size is rounded
-- up to a multiple of 16 in 32-bit arithmetic, which makes 0 of the 15 largest sizes. Either no free
-- block has the rounded size, and it returns NULL and changes nothing; or it returns the data of a
-- free block that is smallest among those that have it, and the heap is tiled by the blocks with that
-- one carved out, which is taken and has the rounded size.
pub kmalloc_lem :
    (size : ℕ) (h : Heap) (cs : List Cell)
    → Blocks h cs
    → 0 < size
    → (p : ℕ) × (h' : Heap) × (kmalloc size h ≡ some (p, h')) × Malloc size h cs p h'
kmalloc_lem size h cs blocks pos =
    let short = Chain-length h.block_at cs _ heap_base blocks in
    let (r, e, b) =
      best_fit_loop-Best heap_fuel h.block_at (align16 size) cs h.heap_start heap_base 0 blocks
        (omega arith) (omega arith) in
    go r e b
  where
    found :
        (r s : ℕ)
        → best_fit_loop heap_fuel h.block_at (align16 size) h.heap_start 0 ≡ some r
        → Best h.block_at (align16 size) heap_base cs 0 r
        → BlockAt heap_base cs r s true
        → align16 size ≤ s
        → (p : ℕ) × (h' : Heap) × (kmalloc size h ≡ some (p, h')) × Malloc size h cs p h'
    found r s e b at le =
        let stored = BlockAt-size h.block_at cs _ heap_base r s true blocks at in
        let fit : BestFit cs (align16 size) r s = record {
          at = at;
          fits = le;
          least = λ a t at' le'. omega (arith, (b.least a t at' le').1);
        } in
        let (h', run, out) = kmalloc_found size h cs r s blocks pos e fit in
        (r + header_size, h', run, out)

    go :
        (r : ℕ)
        → best_fit_loop heap_fuel h.block_at (align16 size) h.heap_start 0 ≡ some r
        → Best h.block_at (align16 size) heap_base cs 0 r
        → (p : ℕ) × (h' : Heap) × (kmalloc size h ≡ some (p, h')) × Malloc size h cs p h'
    go zero e b = let (run, out) = kmalloc_null size h cs pos e b in (0, h, run, out)
    go (suc r) e b = elim b.origin [
      | inl null ↦ absurd (omega arith)
      | inr (s, at, le) ↦ found (suc r) s e b at le
    ]

kfree-Blocks :
    (h : Heap) (cs : List Cell) (r s : ℕ) (f : Bool)
    → Blocks h cs
    → BlockAt heap_base cs r s f
    → Blocks (kfree (r + header_size) h) (release heap_base cs r)
unfolding kfree
kfree-Blocks h cs r s f blocks at =
    let low = BlockAt-le cs heap_base r s f at in
    let high = BlockAt-limit h.block_at cs _ heap_base r s f blocks at in
    let given : (r + header_size == 0) ≡ false = ground arith in
    let header : u32 (r + header_size + 2 ^ 32 - header_size) ≡ r = omega arith in
    rw (given, header) (Chain-release_block h.block_at cs _ heap_base r s f blocks at)

-- `kfree` of the data of a block keeps the heap tiled: that block is released, by itself or merged
-- with the free block after it, and every other block that is in use stays where it is, with its
-- size.
pub kfree_lem :
    (h : Heap) (cs : List Cell) (r s : ℕ) (f : Bool)
    → Blocks h cs
    → BlockAt heap_base cs r s f
    → Blocks (kfree (r + header_size) h) (release heap_base cs r)
      × ((a t : ℕ)
          → BlockAt heap_base cs a t false
          → a ≢ r
          → BlockAt heap_base (release heap_base cs r) a t false)
kfree_lem h cs r s f blocks at = (kfree-Blocks h cs r s f blocks at, release_other cs heap_base r)

-- No two neighbours are both free.
abbrev pub Separated : List Cell → Type 0
Separated [] = Unit
Separated (c ∷ []) = Unit
Separated (c ∷ d ∷ cs) = (c.free ≡ true → d.free ≡ false) × Separated (d ∷ cs)

Separated-tail : (c : Cell) (cs : List Cell) → Separated (c ∷ cs) → Separated cs
Separated-tail c [] h = tt
Separated-tail c (d ∷ cs) h = h.1

merge-carve_cell :
    (n : ℕ) (c : Cell) (cs : List Cell) (lo : ℕ)
    → c.free ≡ true
    → n ≤ c.size
    → Separated (c ∷ cs)
    → release lo (carve_cell n c cs) lo ≡ c ∷ cs
unfolding release merge_cell carve_cell
merge-carve_cell n c [] lo free le sep = elim (Bool-cases (ltb (n + header_size + 16) c.size)) [
  | inl big ↦ rw (big, ==_refl lo) (ground arith)
  | inr small ↦ rw (small, ==_refl lo) (ground arith)
]
merge-carve_cell n c (d ∷ cs) lo free le sep =
    elim (Bool-cases (ltb (n + header_size + 16) c.size)) [
      | inl big ↦ rw (big, ==_refl lo) (ground arith)
      | inr small ↦ rw (small, ==_refl lo) (ground (arith, sep.0 free))
    ]

release-carve :
    (cs : List Cell) (lo r s n : ℕ)
    → BlockAt lo cs r s true
    → n ≤ s
    → Separated cs
    → release lo (carve lo cs r n) r ≡ cs
unfolding carve release
release-carve [] lo r s n at le sep = absurd at
release-carve (c ∷ cs) lo r s n (inl at) le sep =
    rw (at.0, ==_refl lo) (merge-carve_cell n c cs lo at.2 (omega arith) sep)
release-carve (c ∷ cs) lo r s n (inr at) le sep =
    let other : (r == lo) ≡ false = ground (arith, BlockAt-le cs _ r s true at) in
    let tail = release-carve cs (lo + header_size + c.size) r s n at le (Separated-tail c cs sep) in
    rw (other, other) (ap (◌∷◌ c) tail)

kfree-Malloc :
    (size : ℕ) (h h' : Heap) (cs : List Cell) (p : ℕ)
    → Blocks h cs
    → Separated cs
    → Malloc size h cs p h'
    → p ≢ 0
    → Blocks (kfree p h') cs
unfolding kfree
kfree-Malloc size h h' cs p blocks sep (none_fits _) ne = absurd (ne refl)
kfree-Malloc size h h' cs p blocks sep (taken r s fit after (t, at, large)) ne =
    let back = release-carve cs heap_base r s (align16 size) fit.at fit.fits sep in
    rw back at (kfree-Blocks h' (carve heap_base cs r (align16 size)) r t false after at)

-- On a heap without two free neighbours, `kfree` of what `kmalloc` has just returned brings back
-- the blocks that were there before.
pub kfree-kmalloc :
    (size : ℕ) (h h' : Heap) (cs : List Cell) (p : ℕ)
    → Blocks h cs
    → Separated cs
    → 0 < size
    → kmalloc size h ≡ some (p, h')
    → p ≢ 0
    → Blocks (kfree p h') cs
kfree-kmalloc size h h' cs p blocks sep pos run ne =
    let (q, g, e, out) = kmalloc_lem size h cs blocks pos in
    let ep : p ≡ q = ground arith in
    let eh : h' ≡ g = ground arith in
    rw (ep, eh) (kfree-Malloc size h g cs q blocks sep out (ground arith))

-- `kmalloc` leaves every block that is in use where it is, with its size, and never returns the
-- data of such a block.
pub live_block_kept :
    (size : ℕ) (h : Heap) (cs : List Cell) (a t : ℕ)
    → Blocks h cs
    → 0 < size
    → BlockAt heap_base cs a t false
    → (p : ℕ) × (h' : Heap) × (ds : List Cell) × (kmalloc size h ≡ some (p, h'))
      × Blocks h' ds
      × BlockAt heap_base ds a t false
      × (p ≢ a + header_size)
live_block_kept size h cs a t blocks pos at =
    let (p, h', e, out) = kmalloc_lem size h cs blocks pos in
    let (ds, blocks', at', apart) = go p h' out in (p, h', ds, e, blocks', at', apart)
  where
    go :
        (p : ℕ) (h' : Heap)
        → Malloc size h cs p h'
        → (ds : List Cell) × Blocks h' ds × BlockAt heap_base ds a t false × (p ≢ a + header_size)
    go p h' (none_fits _) =
        (cs, blocks, at, λ e. omega (arith, BlockAt-le cs heap_base a t false at))
    go p h' (taken r s fit after _) =
        let ne : a ≢ r = λ e. BlockAt-free cs heap_base r s a t e fit.at at in
        (_, after, carve_other cs heap_base r (align16 size) a t false at ne, λ e. ne (omega arith))

align16_wraps : (size : ℕ) → 2 ^ 32 - 15 ≤ size → size < 2 ^ 32 → align16 size ≡ 0
unfolding align16
align16_wraps size low high = omega (arith, bit_and_align (u32 (size + 15)) (omega arith))

-- A request within 15 bytes of the largest `size_t` is rounded to 0: wherever a free block exists,
-- `kmalloc` returns a pointer that is not NULL.
pub kmalloc_wraps :
    (size : ℕ) (h : Heap) (cs : List Cell) (a t : ℕ)
    → Blocks h cs
    → 2 ^ 32 - 15 ≤ size
    → size < 2 ^ 32
    → BlockAt heap_base cs a t true
    → (align16 size ≡ 0) × (p : ℕ) × (h' : Heap) × (kmalloc size h ≡ some (p, h')) × (p ≢ 0)
kmalloc_wraps size h cs a t blocks low high at =
    let (p, h', e, out) = kmalloc_lem size h cs blocks (omega arith) in
    let zero_bytes = align16_wraps size low high in
    (zero_bytes, p, h', e, ne_null p h' out zero_bytes)
  where
    ne_null : (p : ℕ) (h' : Heap) → Malloc size h cs p h' → align16 size ≡ 0 → p ≢ 0
    ne_null p h' (none_fits small) zero_bytes = absurd (omega (arith, small a t at))
    ne_null p h' (taken r s fit after kept) zero_bytes = λ e. omega arith
