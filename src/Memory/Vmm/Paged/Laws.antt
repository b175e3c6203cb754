-- ===== src/Memory/Vmm/Paged/Laws.antt =====
-- `vmm_map_page` and `vmm_unmap_page` with paging off or on.
use Prim.Native.Nat.{bit_and}
use mathlib.Core.Path.{subst}
use openkernel.Base.{
  ℕ, inl, inr, true, false, Bool, ◌+◌, ◌*◌, ◌/◌, ◌%◌, ◌^◌, ◌<◌, ◌≡◌, ◌≢◌, refl, ap, ◌∙◌, Option,
  some, ◌==◌, if◌then◌else◌, arith, Bool-cases,
}
use openkernel.Base.Bits.{bit_and_mask}
use openkernel.Memory.Pmm.{Pmm, pmm_get_bit, pmm_alloc_page}
use openkernel.Memory.Pmm.Alloc.{Allocated, full, page, pmm_alloc_page_lem}
use openkernel.Memory.Vmm.{
  Vmm, vmm_get_pde, with_page, with_table, map_page_unpaged, unmap_page_unpaged, get_pte_unpaged,
}
use openkernel.Memory.Vmm.Tables.{pde, IsSound}
use openkernel.Memory.Vmm.Laws.{get_pde, Mapped, map_page_unpaged_lem}
use openkernel.Memory.Vmm.Unmap.{Unmapped, unmap_page_unpaged_lem}
use openkernel.Memory.Vmm.Paging.{
  and_then, store, vmm_get_pte, enter_page, add_table, vmm_map_page, vmm_unmap_page,
}
use openkernel.Memory.Vmm.Paged.{IsDirect, pde_loaded, entry_reached, enter_page-unpaged}
use openkernel.Memory.Vmm.Paged.Fresh.{add_table-unpaged, enter_new-unpaged}

-- The loads and stores of `vmm_map_page` and `vmm_unmap_page` reach the tables: paging is off, or the
-- directory, the table of the region and the page that a missing table would get are mapped to
-- themselves.
pub record Reaches (paging : Bool) (s : Vmm) (virt : ℕ) : Type 0 where
  pub directory : IsDirect paging s (s.page_directory / 4096)
  pub table :
      pde s (virt / 4096 / 1024) % 2 ≡ 1 → IsDirect paging s (pde s (virt / 4096 / 1024) / 4096)
  pub fresh :
      pde s (virt / 4096 / 1024) % 2 ≡ 0
      → (pmm_alloc_page s.pmm).0 ≢ 0
      → IsDirect paging s ((pmm_alloc_page s.pmm).0 / 4096)

map_absent :
    (paging : Bool) (s : Vmm) (phys virt flags : ℕ)
    → IsSound s
    → virt < 2 ^ 32
    → pde s (virt / 4096 / 1024) % 2 ≡ 0
    → IsDirect paging s (s.page_directory / 4096)
    → {r : ℕ × Pmm} → Allocated s.pmm r
    → (r.0 ≢ 0 → IsDirect paging s (r.0 / 4096))
    → (if r.0 == 0
        then some (record s { pmm = r.1 })
        else and_then
            (add_table paging virt r.0 (record s { pmm = r.1 }))
            (enter_page paging phys virt flags))
      ≡ some (
          if r.0 == 0
          then record s { pmm = r.1 }
          else with_page phys virt flags (with_table virt r.0 (record s { pmm = r.1 })))
map_absent paging s phys virt flags sound lt absent directory (full used) fresh = refl
map_absent paging s phys virt flags sound lt absent directory
      (page {q} f inside free valid count less bits) fresh =
    let nonzero : f ≢ 0 = λ e.
      (let same = ap (λ n. pmm_get_bit n s.pmm) e in omega (arith, same, free, sound.null_used)) in
    let some_page : (f * 4096 == 0) ≡ false = ground arith in
    let index : f * 4096 / 4096 ≡ f = omega arith in
    let direct = subst (IsDirect paging s) index (fresh (λ e. nonzero (omega arith))) in
    let added =
      add_table-unpaged paging s virt f q sound lt absent inside free valid count bits directory
        direct in
    rw some_page (
      ap (λ t. and_then t (enter_page paging phys virt flags)) added
      ∙ enter_new-unpaged paging s virt f q sound lt absent inside free valid count bits directory
          direct phys flags)

pick_table :
    (b : Bool) (A B : Option Vmm) (X Y : Vmm)
    → (b ≡ true → A ≡ some Y)
    → (b ≡ false → B ≡ some X)
    → (if b then A else B) ≡ some (if if b then false else true then X else Y)
pick_table true A B X Y absent there = absent refl
pick_table false A B X Y absent there = there refl

present_bit :
    (s : Vmm) (virt : ℕ)
    → bit_and (s.word_at (vmm_get_pde virt s)) 1 ≡ pde s (virt / 4096 / 1024) % 2
present_bit s virt =
    ap (λ w. bit_and w 1) (get_pde virt s) ∙ bit_and_mask 1 (pde s (virt / 4096 / 1024))

vmm_map_page-unpaged :
    (paging : Bool) (s : Vmm) (phys virt flags : ℕ)
    → IsSound s
    → virt < 2 ^ 32
    → Reaches paging s virt
    → vmm_map_page paging phys virt flags s ≡ some (map_page_unpaged phys virt flags s)
unfolding map_page_unpaged vmm_map_page
vmm_map_page-unpaged paging s phys virt flags sound lt reaches =
    let r = pmm_alloc_page s.pmm in
    let t = record s { pmm = r.1 } in
    let added =
      if r.0 == 0
      then some t
      else and_then (add_table paging virt r.0 t) (enter_page paging phys virt flags) in
    let entered = enter_page paging phys virt flags s in
    let e = present_bit s virt in
    ap (λ w. and_then w (λ entry. if bit_and entry 1 == 0 then added else entered))
      (pde_loaded paging s virt sound lt reaches.directory)
    ∙ pick_table (bit_and (s.word_at (vmm_get_pde virt s)) 1 == 0) added entered
        (with_page phys virt flags s)
        (if r.0 == 0 then t else with_page phys virt flags (with_table virt r.0 t))
        (λ b.
          let absent : pde s (virt / 4096 / 1024) % 2 ≡ 0 = ground arith in
          map_absent paging s phys virt flags sound lt absent reaches.directory
            (pmm_alloc_page_lem s.pmm sound.pages) (reaches.fresh absent))
        (λ b.
          let there : pde s (virt / 4096 / 1024) % 2 ≡ 1 = ground arith in
          enter_page-unpaged paging s virt sound lt reaches.directory there (reaches.table there)
            phys flags)

pick_null :
    (b : Bool) (s t : Vmm) (A : Option Vmm)
    → A ≡ some t
    → (if b then some s else A) ≡ some (if b then s else t)
pick_null true s t A e = refl
pick_null false s t A e = e

vmm_unmap_page-unpaged :
    (paging : Bool) (s : Vmm) (virt : ℕ)
    → IsSound s
    → virt < 2 ^ 32
    → IsDirect paging s (s.page_directory / 4096)
    → (pde s (virt / 4096 / 1024) % 2 ≡ 1 → IsDirect paging s (pde s (virt / 4096 / 1024) / 4096))
    → vmm_unmap_page paging virt s ≡ some (unmap_page_unpaged virt s)
unfolding vmm_unmap_page vmm_get_pte unmap_page_unpaged get_pte_unpaged
vmm_unmap_page-unpaged paging s virt sound lt directory table =
    let word = s.word_at (vmm_get_pde virt s) in
    let e = present_bit s virt in
    let at = bit_and word 0xfffff000 + 4 * bit_and (virt / 2 ^ 12) 0x3ff in
    let cleared : ℕ → Option Vmm = λ pte. if pte == 0 then some s else store paging pte 0 s in
    ap
      (λ w.
        and_then
          (and_then w (λ entry.
            if bit_and entry 1 == 0
            then some 0
            else some (bit_and entry 0xfffff000 + 4 * bit_and (virt / 2 ^ 12) 0x3ff)))
          cleared)
      (pde_loaded paging s virt sound lt directory)
    ∙ elim (Bool-cases (bit_and word 1 == 0)) [
      | inl b ↦ rw (b, get_pte_unpaged) refl
      | inr b ↦
          let there : pde s (virt / 4096 / 1024) % 2 ≡ 1 = ground arith in
          let stored = entry_reached paging s virt sound lt directory there (table there) 0 in
          rw (b, get_pte_unpaged) (pick_null (at == 0) s _ _ stored)
    ]

-- `vmm_map_page` with the tables sound and paging off or on, where its loads and stores reach the
-- directory, the table and the page for a new table at their own addresses: it does not fault, and
-- either the region of the page has no table and no page is free for one, and nothing changes; or
-- afterwards the page's entry is `phys | flags | PRESENT`, the page translates to the page of
-- `phys`, every other page's entry is as before, and the tables are sound.
pub vmm_map_page_lem :
    (paging : Bool) (s : Vmm) (phys virt flags : ℕ)
    → IsSound s
    → virt < 2 ^ 32
    → flags < 4096
    → Reaches paging s virt
    → (t : Vmm) × (vmm_map_page paging phys virt flags s ≡ some t) × Mapped s phys virt flags t
vmm_map_page_lem paging s phys virt flags sound lt h reaches = (
  map_page_unpaged phys virt flags s,
  vmm_map_page-unpaged paging s phys virt flags sound lt reaches,
  map_page_unpaged_lem s phys virt flags sound lt h,
)

-- `vmm_unmap_page` with the tables sound and paging off or on, where its loads and stores reach the
-- directory and the table at their own addresses: it does not fault, and afterwards the page
-- translates to nothing, whether or not it was mapped, every other page's entry is as before, the
-- page allocator too, and the tables are sound.
pub vmm_unmap_page_lem :
    (paging : Bool) (s : Vmm) (virt : ℕ)
    → IsSound s
    → virt < 2 ^ 32
    → IsDirect paging s (s.page_directory / 4096)
    → (pde s (virt / 4096 / 1024) % 2 ≡ 1 → IsDirect paging s (pde s (virt / 4096 / 1024) / 4096))
    → (t : Vmm) × (vmm_unmap_page paging virt s ≡ some t) × Unmapped s virt t
vmm_unmap_page_lem paging s virt sound lt directory table = (
  unmap_page_unpaged virt s,
  vmm_unmap_page-unpaged paging s virt sound lt directory table,
  unmap_page_unpaged_lem s virt sound lt,
)
