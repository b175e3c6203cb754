-- ===== src/Memory/Heap/Find.antt =====
-- The search of `kmalloc` for the best block: it ends, and its result is the smallest that fits.
use openkernel.Base.{
  ℕ, zero, suc, ◌+◌, ◌≤◌, ◌<◌, ◌≡◌, ◌≢◌, refl, ◌⊎◌, inl, inr, Bool, true, false, ◌&&◌, ◌||◌, some,
  List, [], ◌∷◌, arith, ltb, leb, ◌==◌, Bool-cases, length,
}
use openkernel.Memory.Heap.{Block, header_size, best_fit_loop}
use openkernel.Memory.Heap.Chain.{Cell, Chain, BlockAt}

-- `r` is the outcome of the search from `lo` with `best` found before: a block that fits, or
-- `best`, and no block that fits is smaller.
pub record Best (m : ℕ → Block) (n lo : ℕ) (cs : List Cell) (best r : ℕ) : Type 0 where
  pub origin : (r ≡ best) ⊎ ((s : ℕ) × BlockAt lo cs r s true × (n ≤ s))
  pub least : (a s : ℕ) → BlockAt lo cs a s true → n ≤ s → (r ≢ 0) × ((m r).size ≤ s)
  pub keep : best ≢ 0 → (r ≢ 0) × ((m r).size ≤ (m best).size)

module _ (m : ℕ → Block) (n lo : ℕ) (c : Cell) (cs : List Cell) (pos : 0 < lo) where
  -- The test of the loop body at the block `lo`.
  abbrev better : ℕ → Bool
  better best = (c.free && leb n c.size) && (best == 0 || ltb c.size (m best).size)

  Best-better :
      (best r : ℕ)
      → (m lo).size ≡ c.size
      → better best ≡ true
      → Best m n (lo + header_size + c.size) cs lo r
      → Best m n lo (c ∷ cs) best r
  Best-better best r size yes_better ih = record {
    origin = elim ih.origin [
      | inl e ↦ inr (c.size, inl (e, refl, ground arith), ground arith)
      | inr (s, at, le) ↦ inr (s, inr at, le)
    ];
    least = λ a s. elim [
      | inl at ↦ λ le. let (ne, kept) = ih.keep (λ e. omega arith) in (ne, omega arith)
      | inr at ↦ λ le. ih.least a s at le
    ];
    keep = λ old. let (ne, kept) = ih.keep (λ e. omega arith) in (ne, ground arith);
  }

  Best-worse :
      (best r : ℕ)
      → (m lo).size ≡ c.size
      → better best ≡ false
      → Best m n (lo + header_size + c.size) cs best r
      → Best m n lo (c ∷ cs) best r
  Best-worse best r size no_better ih = record {
    origin = elim ih.origin [ inl e ↦ inl e | inr (s, at, le) ↦ inr (s, inr at, le) ];
    least = λ a s. elim [
      | inl at ↦ λ le.
          let old : best ≢ 0 = ground arith in let (ne, kept) = ih.keep old in (ne, ground arith)
      | inr at ↦ λ le. ih.least a s at le
    ];
    keep = ih.keep;
  }

-- With more fuel than blocks the loop of `kmalloc` ends.
pub best_fit_loop-Best :
    (k : ℕ) (m : ℕ → Block) (n : ℕ) (cs : List Cell) (p lo best : ℕ)
    → Chain m p lo cs
    → 0 < lo
    → length cs < k
    → (r : ℕ) × (best_fit_loop k m n p best ≡ some r) × Best m n lo cs best r
unfolding best_fit_loop
best_fit_loop-Best zero m n cs p lo best h pos fuel = absurd (omega arith)
best_fit_loop-Best (suc k) m n [] p lo best h pos fuel = (
  best,
  rw h.0,
  record { origin = inl refl; least = λ a s at le. absurd at; keep = λ ne. (ne, omega arith) },
)
best_fit_loop-Best (suc k) m n (c ∷ cs) p lo best h pos fuel =
    let not_null : (lo == 0) ≡ false = ground arith in
    elim (Bool-cases (better m n lo c cs pos best)) [
      | inl t ↦
          let (r, e, ih) =
            best_fit_loop-Best k m n cs (m lo).next (lo + header_size + c.size) lo h.3 (omega arith)
              (omega arith) in
          (r, rw (h.0, not_null, h.1, h.2, t) e, Best-better m n lo c cs pos best r h.1 t ih)
      | inr t ↦
          let (r, e, ih) =
            best_fit_loop-Best k m n cs (m lo).next (lo + header_size + c.size) best h.3
              (omega arith) (omega arith) in
          (r, rw (h.0, not_null, h.1, h.2, t) e, Best-worse m n lo c cs pos best r h.1 t ih)
    ]
