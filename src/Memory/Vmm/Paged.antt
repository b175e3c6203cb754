-- ===== src/Memory/Vmm/Paged.antt =====
-- The functions on the tables where their loads and stores reach the tables.
pub mod Fresh
pub mod Laws
use Prim.Native.Nat.{bit_and, bit_or}
use mathlib.Core.Path.{subst}
use openkernel.Base.{
  ℕ, zero, suc, inl, inr, true, false, Bool, ◌+◌, ◌-◌, ◌*◌, ◌/◌, ◌%◌, ◌^◌, ◌≤◌, ◌<◌, ◌≡◌, ◌≢◌, refl,
  sym, ap, ◌∙◌, Option, none, some, ◌==◌, if◌then◌else◌, update, arith, Bool-cases, ==_refl,
}
use openkernel.Base.Bits.{bit_and_mask}
use openkernel.Memory.Pmm.{Pmm, pmm_get_bit, pmm_alloc_page, max_pages}
use openkernel.Memory.Pmm.Valid.{IsValid}
use openkernel.Memory.Pmm.Alloc.{Allocated, full, page, pmm_alloc_page_lem}
use openkernel.Memory.Vmm.{
  Vmm, vmm_get_pde, has_table, with_page, with_table, map_page_unpaged, unmap_page_unpaged,
  get_pte_unpaged, clear_loop,
}
use openkernel.Memory.Vmm.Tables.{pde, pte, translate, IsSound}
use openkernel.Memory.Vmm.Map.{words_apart}
use openkernel.Memory.Vmm.Fresh.{
  cleared_table, cleared_table-IsSound, cleared_table_pte, cleared_table_pde, clear_loop_outside,
}
use openkernel.Memory.Vmm.Space.{same_translate}
use openkernel.Memory.Vmm.Laws.{
  get_pde, entry_address, Mapped, map_page_unpaged_lem, with_table_cleared,
}
use openkernel.Memory.Vmm.Unmap.{Unmapped, unmap_page_unpaged_lem}
use openkernel.Memory.Vmm.Paging.{
  and_then, physical, load, store, vmm_get_pte, clear_table, enter_page, add_table, vmm_map_page,
  vmm_unmap_page,
}

-- The physical page `f` is reached at its own address.
abbrev pub IsDirect : Bool → Vmm → ℕ → Type 0
IsDirect false s f = Unit
IsDirect true s f = translate s f ≡ some f

pub physical-direct :
    (paging : Bool) (s : Vmm) (a f : ℕ)
    → a / 4096 ≡ f
    → IsDirect paging s f
    → physical paging a s ≡ some a
physical-direct false s a f at direct = refl
physical-direct true s a f at direct = rw (at, direct) (ap some (omega arith))

pub direct_same :
    (paging : Bool) (s t : Vmm) (f : ℕ)
    → pte t f ≡ pte s f
    → IsDirect paging s f
    → IsDirect paging t f
direct_same false s t f e direct = tt
direct_same true s t f e direct = same_translate s t f e ∙ direct

module _ (paging : Bool) (s : Vmm) (virt : ℕ) (sound : IsSound s) (lt : virt < 2 ^ 32)
    (directory : IsDirect paging s (s.page_directory / 4096)) where
  pde_reached : physical paging (vmm_get_pde virt s) s ≡ some (vmm_get_pde virt s)
  unfolding vmm_get_pde
  pde_reached =
      physical-direct paging s (s.page_directory + 4 * (virt / 2 ^ 22)) (s.page_directory / 4096)
        (omega (arith, sound.aligned)) directory

  pub pde_loaded : load paging (vmm_get_pde virt s) s ≡ some (s.word_at (vmm_get_pde virt s))
  pde_loaded = ap (λ a. and_then a (λ a. some (s.word_at a))) pde_reached

  module _ (there : pde s (virt / 4096 / 1024) % 2 ≡ 1)
      (table : IsDirect paging s (pde s (virt / 4096 / 1024) / 4096)) where
    pub entry_reached :
        (w : ℕ)
        → store paging
            (bit_and (s.word_at (vmm_get_pde virt s)) 0xfffff000
              + 4 * bit_and (virt / 2 ^ 12) 0x3ff)
            w
            s
          ≡ some (record s {
            word_at =
                update s.word_at
                  (bit_and (s.word_at (vmm_get_pde virt s)) 0xfffff000
                    + 4 * bit_and (virt / 2 ^ 12) 0x3ff)
                  w;
          })
    entry_reached w =
        let at = entry_address s virt sound lt there in
        ap (λ a. and_then a (λ a. some (record s { word_at = update s.word_at a w })))
          (physical-direct paging s _ (pde s (virt / 4096 / 1024) / 4096) (omega (arith, at)) table)

    pub enter_page-unpaged :
        (phys flags : ℕ) → enter_page paging phys virt flags s ≡ some (with_page phys virt flags s)
    unfolding enter_page
    enter_page-unpaged phys flags = rw (pde_loaded, enter_page) (entry_reached _)
