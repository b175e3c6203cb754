-- ===== src/Memory/Vmm/Paging.antt =====
-- The functions of src/kernel/memory.c on the tables, whose loads and stores go through the tables
-- themselves once paging is on. The first argument says whether it is; `none` is a page fault. The
-- kernel writes to pages that are not writable too, since CR0.WP is clear.
use Prim.Native.Nat.{bit_and, bit_or}
use openkernel.Base.{
  ℕ, zero, suc, ◌+◌, ◌*◌, ◌/◌, ◌%◌, Bool, true, false, Option, none, some, ◌==◌, if◌then◌else◌,
  update,
}
use openkernel.Memory.Pmm.{pmm_alloc_page}
use openkernel.Memory.Vmm.{Vmm, pde_present, pde_writable, frame_mask, pt_index, vmm_get_pde}
use openkernel.Memory.Vmm.Tables.{translate}

abbrev pub and_then {ℓ κ} : {A : Type ℓ} {B : Type κ} → Option A → (A → Option B) → Option B
and_then none f = none
and_then (some a) f = f a

-- The physical address that the processor takes for a linear one.
abbrev pub physical : Bool → ℕ → Vmm → Option ℕ
physical false addr s = some addr
physical true addr s = and_then (translate s (addr / 4096)) (λ f. some (f * 4096 + addr % 4096))

abbrev pub load : Bool → ℕ → Vmm → Option ℕ
load paging addr s = and_then (physical paging addr s) (λ a. some (s.word_at a))

abbrev pub store : Bool → ℕ → ℕ → Vmm → Option Vmm
store paging addr w s =
    and_then (physical paging addr s) (λ a. some (record s { word_at = update s.word_at a w }))

-- The pointer to the table entry, 0 for NULL.
unfoldable pub vmm_get_pte : Bool → ℕ → Vmm → Option ℕ
vmm_get_pte paging virt s = and_then (load paging (vmm_get_pde virt s) s) (λ entry.
    if bit_and entry pde_present == 0
    then some 0
    else some (bit_and entry frame_mask + 4 * pt_index virt))

-- `for (i = 0; i < k; i++) ((uint32_t*)table)[i] = 0;`
unfoldable pub clear_table : Bool → ℕ → ℕ → Vmm → Option Vmm
clear_table paging zero table s = some s
clear_table paging (suc k) table s =
    and_then (clear_table paging k table s) (store paging (table + 4 * k) 0)

-- The table is read from the directory again, and the entry is written.
unfoldable pub enter_page : Bool → ℕ → ℕ → ℕ → Vmm → Option Vmm
enter_page paging phys virt flags s = and_then (load paging (vmm_get_pde virt s) s) (λ entry.
    store paging (bit_and entry frame_mask + 4 * pt_index virt)
      (bit_or (bit_or phys flags) pde_present) s)

-- The new table is cleared and put in the directory.
unfoldable pub add_table : Bool → ℕ → ℕ → Vmm → Option Vmm
add_table paging virt new_pt s =
    and_then (clear_table paging 1024 new_pt s)
      (λ t. store paging (vmm_get_pde virt t) (bit_or (bit_or new_pt pde_present) pde_writable) t)

unfoldable pub vmm_map_page : Bool → ℕ → ℕ → ℕ → Vmm → Option Vmm
vmm_map_page paging phys virt flags s =
    let (new_pt, pmm) = pmm_alloc_page s.pmm in
    let t = record s { pmm = pmm } in
    and_then (load paging (vmm_get_pde virt s) s) (λ entry.
      if bit_and entry pde_present == 0
      then (if new_pt == 0
          then some t
          else and_then (add_table paging virt new_pt t) (enter_page paging phys virt flags))
      else enter_page paging phys virt flags s)

unfoldable pub vmm_unmap_page : Bool → ℕ → Vmm → Option Vmm
vmm_unmap_page paging virt s =
    and_then (vmm_get_pte paging virt s) (λ pte. if pte == 0 then some s else store paging pte 0 s)
