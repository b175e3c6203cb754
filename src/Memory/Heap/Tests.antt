-- ===== src/Memory/Heap/Tests.antt =====
-- The heap allocator at concrete inputs, and its theorems there.
use openkernel.Base.{
  ℕ, ◌+◌, ◌-◌, ◌≡◌, ◌≢◌, refl, inl, true, false, Option, some, List, [], ◌∷◌, arith,
}
use openkernel.Memory.Heap.{
  Heap, heap_base, heap_size, header_size, heap_init, align16, kmalloc, kfree, best_fit_loop,
  take_block,
}
use openkernel.Memory.Heap.Chain.{Cell, BlockAt, release}
use openkernel.Memory.Heap.Laws.{
  Blocks, Malloc, heap_init-Blocks, kmalloc_lem, kfree_lem, kfree-kmalloc,
}

abbrev booted : Heap
booted = heap_init (record {
  block_at = λ _. record { next = 0; size = 0; free = false };
  heap_start = 0;
  heap_end = 0;
})

abbrev whole : List Cell
whole = record { size = heap_size - header_size; free = true } ∷ []

booted-Blocks : Blocks booted whole
booted-Blocks = heap_init-Blocks _

-- the heap after `kmalloc(100)`, which takes 112 bytes
abbrev used : List Cell
used =
    record { size = 112; free = false }
    ∷ record { size = heap_size - header_size - 112 - header_size; free = true }
    ∷ []

first_pointer : Option ℕ
first_pointer = elim (kmalloc 100 booted) [ Option.none ↦ Option.none | some (p, _) ↦ some p ]

first_pointer_value : first_pointer ≡ some (heap_base + 12)
unfolding first_pointer kmalloc best_fit_loop heap_init align16
first_pointer_value = refl

kmalloc_lem_example :
    (p : ℕ) × (h' : Heap) × (kmalloc 100 booted ≡ some (p, h')) × Malloc 100 booted whole p h'
kmalloc_lem_example = kmalloc_lem 100 booted whole booted-Blocks (omega arith)

abbrev taken_heap : Heap
taken_heap = record booted { block_at = take_block booted.block_at 112 heap_base }

taken-Blocks : Blocks taken_heap used
unfolding take_block heap_init
taken-Blocks = (refl, refl, refl, (refl, refl, refl, (refl, refl)))

kfree_lem_example :
    Blocks (kfree (heap_base + header_size) taken_heap) (release heap_base used heap_base)
    × ((a t : ℕ)
        → BlockAt heap_base used a t false
        → a ≢ heap_base
        → BlockAt heap_base (release heap_base used heap_base) a t false)
kfree_lem_example =
    kfree_lem taken_heap used heap_base 112 false taken-Blocks (inl (refl, refl, refl))

kfree-kmalloc_example : Blocks (kfree (heap_base + 12) taken_heap) whole
unfolding kmalloc best_fit_loop heap_init align16
kfree-kmalloc_example =
    kfree-kmalloc 100 booted taken_heap whole (heap_base + 12) booted-Blocks tt (omega arith) refl
      (λ e. omega arith)
