-- ===== src/Memory/Heap/Chain.antt =====
-- The list of blocks that the `next` pointers run through, and its updates.
use openkernel.Base.{
  ℕ, ◌+◌, ◌-◌, ◌*◌, ◌^◌, ◌≤◌, ◌<◌, ◌≡◌, ◌≢◌, refl, ◌⊎◌, inl, inr, Bool, true, false, List, [], ◌∷◌,
  arith, ltb, ◌==◌, if◌then◌else◌, update, update_ne, update_self, ◌∙◌, Bool-cases, lt→ltb, ==_refl,
  ap, length,
}
use openkernel.Memory.Heap.{
  Block, heap_base, heap_size, header_size, u32, take_block, release_block,
}

pub record Cell : Type 0 where
  pub size : ℕ
  pub free : Bool

abbrev pub heap_limit : ℕ
heap_limit = heap_base + heap_size

-- From the address `lo` up the cells fill the heap without a gap: each header stands where the
-- block before it ends, and the last block ends at the end of the heap.
abbrev pub Chain : (ℕ → Block) → ℕ → ℕ → List Cell → Type 0
Chain m p lo [] = (p ≡ 0) × (lo ≡ heap_limit)
Chain m p lo (c ∷ cs) =
    (p ≡ lo)
    × ((m lo).size ≡ c.size)
    × ((m lo).free ≡ c.free)
    × Chain m (m lo).next (lo + header_size + c.size) cs

-- `r` is the header of a block of size `s` that is free (`f` is true) or taken.
abbrev pub BlockAt : ℕ → List Cell → ℕ → ℕ → Bool → Type 0
BlockAt lo [] r s f = ⊥
BlockAt lo (c ∷ cs) r s f =
    ((r ≡ lo) × (c.size ≡ s) × (c.free ≡ f)) ⊎ BlockAt (lo + header_size + c.size) cs r s f

-- What taking `n` bytes of the block at `r` does to the list.
unfoldable pub carve_cell : ℕ → Cell → List Cell → List Cell
carve_cell n c cs =
    if ltb (n + header_size + 16) c.size
    then record { size = n; free = false }
      ∷ record { size = c.size - n - header_size; free = true }
      ∷ cs
    else record c { free = false } ∷ cs

unfoldable pub carve : ℕ → List Cell → ℕ → ℕ → List Cell
carve lo [] r n = []
carve lo (c ∷ cs) r n =
    if r == lo then carve_cell n c cs else c ∷ carve (lo + header_size + c.size) cs r n

-- What freeing the block at `r` does to the list.
unfoldable pub merge_cell : Cell → List Cell → List Cell
merge_cell c [] = record c { free = true } ∷ []
merge_cell c (d ∷ cs) =
    if d.free
    then record { size = c.size + header_size + d.size; free = true } ∷ cs
    else record c { free = true } ∷ d ∷ cs

unfoldable pub release : ℕ → List Cell → ℕ → List Cell
release lo [] r = []
release lo (c ∷ cs) r =
    if r == lo then merge_cell c cs else c ∷ release (lo + header_size + c.size) cs r

Chain-le : (m : ℕ → Block) (p lo : ℕ) (cs : List Cell) → Chain m p lo cs → lo ≤ heap_limit
Chain-le m p lo [] h = omega arith
Chain-le m p lo (c ∷ cs) h = omega (arith, Chain-le m (m lo).next _ cs h.3)

-- A write below the chain does not touch it.
pub Chain-update :
    (m : ℕ → Block) (cs : List Cell) (p lo a : ℕ) (b : Block)
    → a < lo
    → Chain m p lo cs
    → Chain (update m a b) p lo cs
Chain-update m [] p lo a b lt h = h
Chain-update m (c ∷ cs) p lo a b lt h =
    let kept : update m a b lo ≡ m lo = update_ne m a b lo (λ e. omega arith) in
    rw kept (h.0, h.1, h.2, Chain-update m cs _ _ a b (omega arith) h.3)

pub BlockAt-le : (cs : List Cell) (lo r s : ℕ) (f : Bool) → BlockAt lo cs r s f → lo ≤ r
BlockAt-le [] lo r s f h = absurd h
BlockAt-le (c ∷ cs) lo r s f (inl h) = omega arith
BlockAt-le (c ∷ cs) lo r s f (inr h) = omega (arith, BlockAt-le cs _ r s f h)

-- A block of the chain ends inside the heap.
pub BlockAt-limit :
    (m : ℕ → Block) (cs : List Cell) (p lo r s : ℕ) (f : Bool)
    → Chain m p lo cs
    → BlockAt lo cs r s f
    → r + header_size + s ≤ heap_limit
BlockAt-limit m [] p lo r s f h at = absurd at
BlockAt-limit m (c ∷ cs) p lo r s f h (inl at) = omega (arith, Chain-le m _ _ cs h.3)
BlockAt-limit m (c ∷ cs) p lo r s f h (inr at) = BlockAt-limit m cs _ _ r s f h.3 at

-- `take_block` without the wrap-around, on either branch.
module _ (m : ℕ → Block) (n r : ℕ) (fits : r + header_size + n ≤ heap_limit) where
  take_split :
      (n + header_size + 16 < (m r).size)
      → (m r).size < 2 ^ 32
      → take_block m n r
        ≡ update
            (update m
              (r + header_size + n)
              (record { next = (m r).next; size = (m r).size - n - header_size; free = true }))
            r
            (record { next = r + header_size + n; size = n; free = false })
  unfolding take_block
  take_split big word =
      let e1 : u32 (n + header_size + 16) ≡ n + header_size + 16 = omega arith in
      let e2 : u32 (r + header_size + n) ≡ r + header_size + n = omega arith in
      let e3 : u32 ((m r).size + 2 ^ 32 - n - header_size) ≡ (m r).size - n - header_size =
        omega arith in
      rw (e1, e2, e3, lt→ltb _ _ big)

  take_whole :
      (m r).size ≤ n + header_size + 16
      → take_block m n r ≡ update m r (record (m r) { free = false })
  unfolding take_block
  take_whole small =
      let e1 : u32 (n + header_size + 16) ≡ n + header_size + 16 = omega arith in
      let no_split : ltb (n + header_size + 16) (m r).size ≡ false = ground arith in
      rw (e1, no_split)

  -- Only headers from `r` up are written.
  take_block_below : (a : ℕ) → a < r → take_block m n r a ≡ m a
  unfolding take_block
  take_block_below a lt = ground arith

two_cells :
    (m : ℕ → Block) (cs : List Cell) (p lo n s t : ℕ)
    → t ≡ s
    → n + header_size ≤ s
    → Chain m p (lo + header_size + s) cs
    → Chain
        (update
          (update m
            (lo + header_size + n)
            (record { next = p; size = t - n - header_size; free = true }))
          lo
          (record { next = lo + header_size + n; size = n; free = false }))
        lo
        lo
        (record { size = n; free = false }
          ∷ record { size = s - n - header_size; free = true }
          ∷ cs)
two_cells m cs p lo n s t e le h =
    let nb : ℕ = lo + header_size + n in
    let b2 : Block = record { next = p; size = t - n - header_size; free = true } in
    let b1 : Block = record { next = nb; size = n; free = false } in
    let m1 = update m nb b2 in
    let end : nb + header_size + (s - n - header_size) ≡ lo + header_size + s = omega arith in
    let at_nb : update m1 lo b1 nb ≡ b2 =
      update_ne m1 lo b1 nb (λ e. omega arith) ∙ update_self m nb b2 in
    let tail =
      Chain-update m1 cs p _ lo b1 (omega arith) (Chain-update m cs p _ nb b2 (omega arith) h) in
    rw (update_self m1 lo b1, at_nb, end) (refl, refl, refl, (refl, omega arith, refl, tail))

-- Taking the first block.
take_head :
    (m : ℕ → Block) (lo n : ℕ) (c : Cell) (cs : List Cell)
    → Chain m lo lo (c ∷ cs)
    → n ≤ c.size
    → Chain (take_block m n lo) lo lo (carve_cell n c cs)
unfolding carve_cell
take_head m lo n c cs h fits =
    let limit = Chain-le m _ _ cs h.3 in
    let room : lo + header_size + n ≤ heap_limit = omega arith in
    elim (Bool-cases (ltb (n + header_size + 16) c.size)) [
      | inl big ↦
          let more : n + header_size + 16 < (m lo).size = ground arith in
          rw (take_split m n lo room more (omega arith), big)
            (two_cells m cs _ lo n c.size (m lo).size h.1 (omega arith) h.3)
      | inr small ↦
          let b : Block = record (m lo) { free = false } in
          let size : (m lo).size ≤ n + header_size + 16 = ground arith in
          rw (take_whole m n lo room size, small, update_self m lo b)
            (refl, h.1, refl, Chain-update m cs _ _ lo b (omega arith) h.3)
    ]

-- Taking a block that is large enough leaves a chain, with the block carved out.
pub Chain-take_block :
    (m : ℕ → Block) (cs : List Cell) (p lo r s n : ℕ) (f : Bool)
    → Chain m p lo cs
    → BlockAt lo cs r s f
    → n ≤ s
    → Chain (take_block m n r) p lo (carve lo cs r n)
unfolding carve
Chain-take_block m [] p lo r s n f h at fits = absurd at
Chain-take_block m (c ∷ cs) p lo r s n f h (inl at) fits =
    rw (at.0, ==_refl lo, h.0) (take_head m lo n c cs (refl, h.1, h.2, h.3) (omega arith))
Chain-take_block m (c ∷ cs) p lo r s n f h (inr at) fits =
    let above : lo < r = omega (arith, BlockAt-le cs _ r s f at) in
    let end = BlockAt-limit m cs _ _ r s f h.3 at in
    let kept = take_block_below m n r (omega arith) lo above in
    let other : (r == lo) ≡ false = ground arith in
    rw (other, kept) (h.0, h.1, h.2, Chain-take_block m cs _ _ r s n f h.3 at fits)

-- `release_block` on either branch.
module _ (m : ℕ → Block) (r q : ℕ) (next : (m r).next ≡ q) (above : r < q) where
  release_merged :
      (m q).free ≡ true
      → (m r).size + header_size + (m q).size < 2 ^ 32
      → release_block m r
        ≡ update m r (record {
          next = (m q).next;
          size = (m r).size + header_size + (m q).size;
          free = true;
        })
  unfolding release_block
  release_merged free word =
      let wrap : u32 ((m r).size + header_size + (m q).size)
          ≡ (m r).size + header_size + (m q).size =
        omega arith in
      let other : (r == q) ≡ false = ground arith in
      let some_next : (q == 0) ≡ false = ground arith in rw (next, other, some_next, free, wrap)

  release_alone : (m q).free ≡ false → release_block m r ≡ update m r (record (m r) { free = true })
  unfolding release_block
  release_alone taken =
      let other : (r == q) ≡ false = ground arith in
      let some_next : (q == 0) ≡ false = ground arith in rw (next, other, some_next, taken)

-- Freeing the first block.
release_head :
    (m : ℕ → Block) (lo : ℕ) (c : Cell) (cs : List Cell)
    → Chain m lo lo (c ∷ cs)
    → Chain (release_block m lo) lo lo (merge_cell c cs)
unfolding merge_cell
release_head m lo c [] h =
    unfold release_block in (refl, ground arith, ground arith, (ground arith, h.3.1))
release_head m lo c (d ∷ cs) h =
    let lo2 : ℕ = lo + header_size + c.size in
    let limit = Chain-le m _ _ cs h.3.3 in
    elim (Bool-cases d.free) [
      | inl free ↦
          let b : Block = record {
            next = (m lo2).next;
            size = (m lo).size + header_size + (m lo2).size;
            free = true;
          } in
          let e = release_merged m lo lo2 h.3.0 (omega arith) (h.3.2 ∙ free) (omega arith) in
          let end : lo2 + header_size + d.size
              ≡ lo + header_size + (c.size + header_size + d.size) =
            omega arith in
          rw (e, free, update_self m lo b)
            (refl, omega arith, refl, rw end at (Chain-update m cs _ _ lo b (omega arith) h.3.3))
      | inr taken ↦
          let b : Block = record (m lo) { free = true } in
          let e = release_alone m lo lo2 h.3.0 (omega arith) (h.3.2 ∙ taken) in
          let t = Chain-update m (d ∷ cs) _ _ lo b (omega arith) h.3 in
          rw (e, taken, update_self m lo b) (refl, h.1, refl, (t.0, t.1, t.2 ∙ taken, t.3))
    ]

release_block_below : (m : ℕ → Block) (r a : ℕ) → a ≢ r → release_block m r a ≡ m a
unfolding release_block
release_block_below m r a ne = ground arith

-- Freeing a block of the chain leaves a chain, with the block released.
pub Chain-release_block :
    (m : ℕ → Block) (cs : List Cell) (p lo r s : ℕ) (f : Bool)
    → Chain m p lo cs
    → BlockAt lo cs r s f
    → Chain (release_block m r) p lo (release lo cs r)
unfolding release
Chain-release_block m [] p lo r s f h at = absurd at
Chain-release_block m (c ∷ cs) p lo r s f h (inl at) =
    rw (at.0, ==_refl lo, h.0) (release_head m lo c cs (refl, h.1, h.2, h.3))
Chain-release_block m (c ∷ cs) p lo r s f h (inr at) =
    let above : lo < r = omega (arith, BlockAt-le cs _ r s f at) in
    let kept = release_block_below m r lo (λ e. omega arith) in
    let other : (r == lo) ≡ false = ground arith in
    rw (other, kept) (h.0, h.1, h.2, Chain-release_block m cs _ _ r s f h.3 at)

-- The store holds the size of each block of the chain.
pub BlockAt-size :
    (m : ℕ → Block) (cs : List Cell) (p lo r s : ℕ) (f : Bool)
    → Chain m p lo cs
    → BlockAt lo cs r s f
    → (m r).size ≡ s
BlockAt-size m [] p lo r s f h at = absurd at
BlockAt-size m (c ∷ cs) p lo r s f h (inl at) = ap (λ a. (m a).size) at.0 ∙ h.1 ∙ at.1
BlockAt-size m (c ∷ cs) p lo r s f h (inr at) = BlockAt-size m cs _ _ r s f h.3 at

-- The headers of all the blocks fit into the heap.
pub Chain-length :
    (m : ℕ → Block) (cs : List Cell) (p lo : ℕ)
    → Chain m p lo cs
    → header_size * length cs + lo ≤ heap_limit
Chain-length m [] p lo h = omega arith
Chain-length m (c ∷ cs) p lo h = omega (arith, Chain-length m cs _ _ h.3)
