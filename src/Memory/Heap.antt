-- ===== src/Memory/Heap.antt =====
-- The heap allocator of src/kernel/memory.c: `heap_init`, `kmalloc`, `kfree`.
-- A `heap_block` header lies in front of each block; the store gives the header at an address.
-- Pointers and `size_t` are 32 bits wide, NULL is 0, and `sizeof(heap_block)` is 12.
-- A pointer that points between two headers is outside the model.
pub mod Chain
pub mod Find
pub mod Live
pub mod Laws
mod Tests
use Prim.Native.Nat.{bit_and}
use openkernel.Base.{
  ℕ, zero, suc, ◌+◌, ◌-◌, ◌%◌, ◌^◌, ◌≡◌, Bool, true, false, ◌&&◌, ◌||◌, Option, none, some, ltb,
  leb, ◌==◌, if◌then◌else◌, update, not,
}

abbrev pub heap_base : ℕ
heap_base = 0xE0000000

abbrev pub heap_size : ℕ
heap_size = 0x04000000

abbrev pub header_size : ℕ
header_size = 12

abbrev pub u32 : ℕ → ℕ
u32 n = n % 2 ^ 32

pub record Block : Type 0 where
  pub next : ℕ
  pub size : ℕ
  pub free : Bool

-- `heap_end` is written by `heap_init` and read by nothing.
pub record Heap : Type 0 where
  pub block_at : ℕ → Block
  pub heap_start : ℕ
  pub heap_end : ℕ

unfoldable pub heap_init : Heap → Heap
heap_init h = if leb heap_size header_size then h else record h {
  block_at =
      update h.block_at heap_base
        (record { next = 0; size = heap_size - header_size; free = true });
  heap_start = heap_base;
  heap_end = heap_base;
}

-- `(size + 15) & ~15`
unfoldable pub align16 : ℕ → ℕ
align16 size = bit_and (u32 (size + 15)) 0xfffffff0

-- the `while (current)` of `kmalloc`; `none` means that the fuel ran out
unfoldable pub best_fit_loop : ℕ → (ℕ → Block) → ℕ → ℕ → ℕ → Option ℕ
best_fit_loop zero m size current best = none
best_fit_loop (suc k) m size current best =
    let b = m current in
    let better = (b.free && leb size b.size) && (best == 0 || ltb b.size (m best).size) in
    let rest = best_fit_loop k m size b.next (if better then current else best) in
    if current == 0 then some best else rest

-- What `kmalloc` does with the block that it found: split it if enough is left, and take it.
unfoldable pub take_block : (ℕ → Block) → ℕ → ℕ → ℕ → Block
take_block m size best =
    let b = m best in
    let new_block = u32 (best + header_size + size) in
    let left = u32 (b.size + 2 ^ 32 - size - header_size) in
    let rest : Block = record { next = b.next; size = left; free = true } in
    if ltb (u32 (size + header_size + 16)) b.size
    then update (update m new_block rest) best
        (record { next = new_block; size = size; free = false })
    else update m best (record b { free = false })

-- Every block takes at least a header, so there are fewer blocks than the heap has bytes.
abbrev pub heap_fuel : ℕ
heap_fuel = heap_size

-- The pointer returned, 0 for NULL, and the new heap.
unfoldable pub kmalloc : ℕ → Heap → Option (ℕ × Heap)
kmalloc size h =
    if size == 0
    then some (0, h)
    else elim (best_fit_loop heap_fuel h.block_at (align16 size) h.heap_start 0) [
      | none ↦ none
      | some best ↦
          if best == 0
          then some (0, h)
          else some (
            u32 (best + header_size),
            record h { block_at = take_block h.block_at (align16 size) best },
          )
    ]

-- The stores of `kfree` at the header of the block.
unfoldable pub release_block : (ℕ → Block) → ℕ → ℕ → Block
release_block m block =
    let b = record (m block) { free = true } in
    let n = update m block b b.next in
    if not (b.next == 0) && n.free
    then update m block
        (record { next = n.next; size = u32 (b.size + header_size + n.size); free = true })
    else update m block b

unfoldable pub kfree : ℕ → Heap → Heap
kfree ptr h =
    if ptr == 0
    then h
    else record h { block_at = release_block h.block_at (u32 (ptr + 2 ^ 32 - header_size)) }
