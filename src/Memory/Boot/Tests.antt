-- ===== src/Memory/Boot/Tests.antt =====
-- `memory_init` on a machine with 128 MB.
use openkernel.Base.{◌-◌, [], ◌∷◌, true, false, arith}
use openkernel.Memory.Heap.{Heap, heap_size, header_size}
use openkernel.Memory.Heap.Laws.{Blocks}
use openkernel.Memory.Vmm.{Vmm, memory_init}
use openkernel.Memory.Vmm.Space.{Booted}
use openkernel.Memory.Boot.{memory_init_lem}

abbrev off : Vmm
off = record {
  page_directory = 0;
  word_at = λ a. a;
  pmm = record { bitmap = λ _. 0; page_count = 0; free_pages = 0; search_hint = 0 };
}

abbrev no_heap : Heap
no_heap = record {
  block_at = λ _. record { next = 0; size = 0; free = false };
  heap_start = 0;
  heap_end = 0;
}

memory_init_lem_example :
    Booted (memory_init 0x200000 640 130048 (off, no_heap)).0
    × Blocks
        (memory_init 0x200000 640 130048 (off, no_heap)).1
        (record { size = heap_size - header_size; free = true } ∷ [])
memory_init_lem_example =
    memory_init_lem 0x200000 640 130048 off no_heap (omega arith) (omega arith)
