-- ===== src/Memory/Heap/Live.antt =====
-- Blocks of the list: they do not overlap, and a taken block outlives `kmalloc` and the `kfree` of
-- another block.
use openkernel.Base.{
  ℕ, ◌+◌, ◌-◌, ◌≤◌, ◌≡◌, ◌≢◌, refl, ◌⊎◌, inl, inr, Bool, false, List, [], ◌∷◌, arith, ltb, ◌==◌,
  Bool-cases, ==_refl,
}
use openkernel.Memory.Heap.{header_size}
use openkernel.Memory.Heap.Chain.{Cell, BlockAt, carve, carve_cell, release, merge_cell, BlockAt-le}

carve_cell-BlockAt :
    (n lo : ℕ) (c : Cell) (cs : List Cell)
    → n ≤ c.size
    → (t : ℕ) × BlockAt lo (carve_cell n c cs) lo t false × (n ≤ t)
unfolding carve_cell
carve_cell-BlockAt n lo c cs le = elim (Bool-cases (ltb (n + header_size + 16) c.size)) [
  | inl big ↦ (n, rw big (inl (refl, refl, refl)), omega arith)
  | inr small ↦ (c.size, rw small (inl (refl, refl, refl)), le)
]

-- The block that is carved out is taken, and has at least the size asked for.
pub carve-BlockAt :
    (cs : List Cell) (lo r s n : ℕ) (f : Bool)
    → BlockAt lo cs r s f
    → n ≤ s
    → (t : ℕ) × BlockAt lo (carve lo cs r n) r t false × (n ≤ t)
unfolding carve
carve-BlockAt [] lo r s n f at le = absurd at
carve-BlockAt (c ∷ cs) lo r s n f (inl at) le =
    rw (at.0, ==_refl lo) (carve_cell-BlockAt n lo c cs (omega arith))
carve-BlockAt (c ∷ cs) lo r s n f (inr at) le =
    let other : (r == lo) ≡ false = ground (arith, BlockAt-le cs _ r s f at) in
    let (t, inside, large) = carve-BlockAt cs (lo + header_size + c.size) r s n f at le in
    (t, rw other (inr inside), large)

carve_cell_other :
    (n lo : ℕ) (c : Cell) (cs : List Cell) (a t : ℕ) (f : Bool)
    → BlockAt (lo + header_size + c.size) cs a t f
    → BlockAt lo (carve_cell n c cs) a t f
unfolding carve_cell
carve_cell_other n lo c cs a t f at = elim (Bool-cases (ltb (n + header_size + 16) c.size)) [
  | inl big ↦
      let end : lo + header_size + c.size
          ≡ lo + header_size + n + header_size + (c.size - n - header_size) =
        ground arith in
      rw big (inr (inr (rw end at at)))
  | inr small ↦ rw small (inr at)
]

-- Carving one block leaves every other block where it is.
pub carve_other :
    (cs : List Cell) (lo r n a t : ℕ) (f : Bool)
    → BlockAt lo cs a t f
    → a ≢ r
    → BlockAt lo (carve lo cs r n) a t f
unfolding carve
carve_other [] lo r n a t f at ne = at
carve_other (c ∷ cs) lo r n a t f (inl at) ne =
    let other : (r == lo) ≡ false = ground arith in rw other (inl at)
carve_other (c ∷ cs) lo r n a t f (inr at) ne = elim (Bool-cases (r == lo)) [
  | inl here ↦ rw here (carve_cell_other n lo c cs a t f at)
  | inr other ↦ rw other (inr (carve_other cs _ r n a t f at ne))
]

merge_cell_other :
    (lo : ℕ) (c : Cell) (cs : List Cell) (a t : ℕ)
    → BlockAt (lo + header_size + c.size) cs a t false
    → BlockAt lo (merge_cell c cs) a t false
unfolding merge_cell
merge_cell_other lo c [] a t at = absurd at
merge_cell_other lo c (d ∷ cs) a t (inl at) = rw at.2 (inr (inl (at.0, at.1, refl)))
merge_cell_other lo c (d ∷ cs) a t (inr at) = elim (Bool-cases d.free) [
  | inl free ↦
      let end : lo + header_size + c.size + header_size + d.size
          ≡ lo + header_size + (c.size + header_size + d.size) =
        omega arith in
      rw free (inr (rw end at at))
  | inr taken ↦ rw taken (inr (inr at))
]

-- Freeing one block leaves every other block that is taken where it is.
pub release_other :
    (cs : List Cell) (lo r a t : ℕ)
    → BlockAt lo cs a t false
    → a ≢ r
    → BlockAt lo (release lo cs r) a t false
unfolding release
release_other [] lo r a t at ne = at
release_other (c ∷ cs) lo r a t (inl at) ne =
    let other : (r == lo) ≡ false = ground arith in rw other (inl at)
release_other (c ∷ cs) lo r a t (inr at) ne = elim (Bool-cases (r == lo)) [
  | inl here ↦ rw here (merge_cell_other lo c cs a t at)
  | inr other ↦ rw other (inr (release_other cs _ r a t at ne))
]

-- Two blocks at different addresses do not overlap.
pub BlockAt-disjoint :
    (cs : List Cell) (lo a s b t : ℕ) (f g : Bool)
    → BlockAt lo cs a s f
    → BlockAt lo cs b t g
    → a ≢ b
    → (a + header_size + s ≤ b) ⊎ (b + header_size + t ≤ a)
BlockAt-disjoint [] lo a s b t f g at at' ne = absurd at
BlockAt-disjoint (c ∷ cs) lo a s b t f g (inl at) (inl at') ne = absurd (ne (omega arith))
BlockAt-disjoint (c ∷ cs) lo a s b t f g (inl at) (inr at') ne =
    inl (omega (arith, BlockAt-le cs _ b t g at'))
BlockAt-disjoint (c ∷ cs) lo a s b t f g (inr at) (inl at') ne =
    inr (omega (arith, BlockAt-le cs _ a s f at))
BlockAt-disjoint (c ∷ cs) lo a s b t f g (inr at) (inr at') ne =
    BlockAt-disjoint cs _ a s b t f g at at' ne
