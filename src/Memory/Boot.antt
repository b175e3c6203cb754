-- ===== src/Memory/Boot.antt =====
-- `memory_init`: the page allocator, the address space and the heap together.
mod Tests
use openkernel.Base.{
  ℕ, ◌+◌, ◌-◌, ◌*◌, ◌/◌, ◌%◌, ◌^◌, ◌≤◌, ◌<◌, ◌≡◌, List, [], ◌∷◌, true, arith, leb, if◌then◌else◌,
}
use openkernel.Memory.Pmm.{pmm_init, page_size, pmm_get_bit}
use openkernel.Memory.Pmm.Init.{pmm_init_lem}
use openkernel.Memory.Heap.{Heap, heap_size, header_size}
use openkernel.Memory.Heap.Laws.{Blocks, heap_init-Blocks}
use openkernel.Memory.Vmm.{Vmm, memory_init}
use openkernel.Memory.Vmm.Space.{Booted}
use openkernel.Memory.Vmm.Init.{vmm_init_lem}

-- `memory_init` with the kernel ending below the last page of the 32-bit space, on a machine whose
-- pages, with 32-bit wrap-around of the size in bytes, leave at least 16406 after the page in which
-- the kernel ends: afterwards the address space is the one of `vmm_init` and the heap is one free
-- block.
pub memory_init_lem :
    (kernel_end mem_lower mem_upper : ℕ) (s : Vmm) (h : Heap)
    → kernel_end + page_size < 2 ^ 32
    → (kernel_end + page_size) / page_size + 16406
      ≤ (mem_lower + mem_upper) % 2 ^ 32 * 1024 % 2 ^ 32 / page_size
    → let r = memory_init kernel_end mem_lower mem_upper (s, h) in
      Booted r.0 × Blocks r.1 (record { size = heap_size - header_size; free = true } ∷ [])
unfolding memory_init
memory_init_lem kernel_end mem_lower mem_upper s h small many =
    let pmm = pmm_init kernel_end mem_lower mem_upper s.pmm in
    let (count, valid, free, bits) = pmm_init_lem kernel_end mem_lower mem_upper s.pmm in
    let null : pmm_get_bit 0 pmm ≡ 1 = ground (arith, bits 0 (omega (arith, count, many))) in
    let enough : 16406 ≤ pmm.free_pages = omega (arith, count, free, many, small) in
    (vmm_init_lem (record s { pmm = pmm }) valid null enough, heap_init-Blocks h)
