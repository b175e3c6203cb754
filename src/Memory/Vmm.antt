-- ===== src/Memory/Vmm.antt =====
-- The virtual memory manager of src/kernel/memory.c: a page directory and page tables of 1024
-- words each, in physical memory. A pointer to a word is the byte address of the word. The loads
-- of CR3 and CR0, `invlpg`, the progress display and the messages are left out. The functions named
-- unpaged are those of the code as `vmm_init` runs them, before paging is on; Paging has them through
-- the tables.
pub mod Tables
pub mod Map
pub mod Fresh
pub mod Laws
pub mod Unmap
pub mod Loops
pub mod HeapPages
pub mod Space
pub mod Init
pub mod Paging
pub mod Paged
mod Tests
use Prim.Native.Nat.{bit_and, bit_or}
use openkernel.Base.{
  ℕ, zero, suc, ◌+◌, ◌-◌, ◌*◌, ◌/◌, ◌%◌, ◌^◌, Bool, true, false, ◌==◌, if◌then◌else◌, update,
}
use openkernel.Memory.Pmm.{Pmm, page_size, pmm_init, pmm_alloc_page}
use openkernel.Memory.Heap.{Heap, u32, heap_init, heap_base, heap_size}

abbrev pub pde_present : ℕ
pde_present = 1

abbrev pub pde_writable : ℕ
pde_writable = 2

-- `~0xFFF` on 32 bits
abbrev pub frame_mask : ℕ
frame_mask = 0xfffff000

-- `kernel_page_directory`, the words of physical memory, and the page allocator.
pub record Vmm : Type 0 where
  pub page_directory : ℕ
  pub word_at : ℕ → ℕ
  pub pmm : Pmm

abbrev pub pd_index : ℕ → ℕ
pd_index virt = virt / 2 ^ 22

abbrev pub pt_index : ℕ → ℕ
pt_index virt = bit_and (virt / 2 ^ 12) 0x3ff

-- The address of the directory entry.
unfoldable pub vmm_get_pde : ℕ → Vmm → ℕ
vmm_get_pde virt s = s.page_directory + 4 * pd_index virt

-- The address of the table entry, 0 for NULL.
unfoldable pub get_pte_unpaged : ℕ → Vmm → ℕ
get_pte_unpaged virt s =
    let entry = s.word_at (vmm_get_pde virt s) in
    if bit_and entry pde_present == 0 then 0 else bit_and entry frame_mask + 4 * pt_index virt

-- `for (i = 0; i < k; i++) ((uint32_t*)table)[i] = 0;`
unfoldable pub clear_loop : ℕ → ℕ → (ℕ → ℕ) → ℕ → ℕ
clear_loop zero table m = m
clear_loop (suc k) table m = update (clear_loop k table m) (table + 4 * k) 0

-- The table of `virt` is there.
abbrev pub has_table : ℕ → Vmm → Bool
has_table virt s = if bit_and (s.word_at (vmm_get_pde virt s)) pde_present == 0 then false else true

-- The directory entry gets a cleared table on the page `new_pt`.
abbrev pub with_table : ℕ → ℕ → Vmm → Vmm
with_table virt new_pt s = record s {
  word_at =
      update (clear_loop 1024 new_pt s.word_at) (vmm_get_pde virt s)
        (bit_or (bit_or new_pt pde_present) pde_writable);
}

-- The table entry is written, once the table is there.
abbrev pub with_page : ℕ → ℕ → ℕ → Vmm → Vmm
with_page phys virt flags s =
    let page_table = bit_and (s.word_at (vmm_get_pde virt s)) frame_mask in
    record s {
      word_at =
          update s.word_at (page_table + 4 * pt_index virt)
            (bit_or (bit_or phys flags) pde_present);
    }

unfoldable pub map_page_unpaged : ℕ → ℕ → ℕ → Vmm → Vmm
map_page_unpaged phys virt flags s =
    let (new_pt, pmm) = pmm_alloc_page s.pmm in
    let t = record s { pmm = pmm } in
    if has_table virt s
    then with_page phys virt flags s
    else (if new_pt == 0 then t else with_page phys virt flags (with_table virt new_pt t))

unfoldable pub unmap_page_unpaged : ℕ → Vmm → Vmm
unmap_page_unpaged virt s =
    let pte = get_pte_unpaged virt s in
    if pte == 0 then s else record s { word_at = update s.word_at pte 0 }

-- `for (i = 0; i < k; i++)` with a page of consecutive addresses mapped in each round
unfoldable pub map_loop : ℕ → ℕ → ℕ → Vmm → Vmm
map_loop zero phys virt s = s
map_loop (suc k) phys virt s =
    map_loop k (phys + page_size) (virt + page_size)
      (map_page_unpaged phys virt (bit_or pde_writable pde_present) s)

-- The loop over the heap region, with `k` rounds left: a fresh page for each, until there is none.
unfoldable pub heap_loop : ℕ → ℕ → Vmm → Vmm
heap_loop zero virt s = s
heap_loop (suc k) virt s =
    let (phys, pmm) = pmm_alloc_page s.pmm in
    let t = record s { pmm = pmm } in
    let rest =
      heap_loop k (virt + page_size)
        (map_page_unpaged phys virt (bit_or pde_writable pde_present) t) in
    if phys == 0 then t else rest

-- `PAGE_ALIGN_UP`
abbrev pub page_align_up : ℕ → ℕ
page_align_up addr = bit_and (u32 (addr + page_size + 2 ^ 32 - 1)) frame_mask

-- A directory with no entry.
unfoldable pub init_directory : Vmm → Vmm
init_directory s =
    let (page, pmm) = pmm_alloc_page s.pmm in
    let dir = page_align_up page in
    record { page_directory = dir; word_at = clear_loop 1024 dir s.word_at; pmm = pmm }

unfoldable pub vmm_init : Vmm → Vmm
vmm_init s0 =
    let s1 = map_loop 1024 0 0 (init_directory s0) in
    let s2 = map_loop 256 0x100000 0xc0000000 s1 in
    let s3 = map_page_unpaged 0xb8000 0xb8000 (bit_or pde_writable pde_present) s2 in
    let s4 = map_loop 16 0xa0000 0xa0000 s3 in
    let s5 = map_loop 512 0xfd000000 0xfd000000 s4 in heap_loop (heap_size / page_size) heap_base s5

unfoldable pub memory_init : ℕ → ℕ → ℕ → Vmm × Heap → Vmm × Heap
memory_init kernel_end mem_lower mem_upper (s, h) =
    let pmm = pmm_init kernel_end mem_lower mem_upper s.pmm in
    (vmm_init (record s { pmm = pmm }), heap_init h)
