-- ===== src/Memory.antt =====
-- src/kernel/memory.c and memory.h: the physical page allocator and the kernel heap.
pub mod Heap
pub mod Pmm
pub mod Vmm
pub mod Boot
