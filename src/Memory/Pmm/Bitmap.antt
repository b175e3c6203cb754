-- ===== src/Memory/Pmm/Bitmap.antt =====
-- The bitmap is a map from page numbers to bits.
use Prim.Native.Nat.{bit_and, bit_or, bit_xor}
use openkernel.Base.{ℕ, ◌/◌, ◌%◌, ◌^◌, ◌≤◌, ◌<◌, ◌≡◌, Bool, arith, ◌==◌, if◌then◌else◌}
use openkernel.Base.Bits.{bit, bit-lt, bit-and, bit-or, bit-xor, bit-pow, bit-mask, shift-bit}
use openkernel.Memory.Pmm.{Pmm, max_pages, pmm_set_bit, pmm_get_bit}

get_bit-bit : (i : ℕ) (p : Pmm) → i < max_pages → pmm_get_bit i p ≡ bit (i % 32) (p.bitmap (i / 32))
unfolding pmm_get_bit
get_bit-bit i p h = ground (arith, shift-bit (i % 32) (p.bitmap (i / 32)))

-- `word |= 1 << b`
bit-set : (k b word : ℕ) → bit k (bit_or word (2 ^ b)) ≡ (if b == k then 1 else bit k word)
bit-set k b word = ground (arith, bit-or k word (2 ^ b), bit-pow k b, bit-lt k word)

-- `word &= ~(1 << b)`
bit-clear :
    (k b word : ℕ)
    → k < 32
    → bit k (bit_and word (bit_xor (2 ^ b) 0xffffffff)) ≡ (if b == k then 0 else bit k word)
bit-clear k b word h = ground (
  arith,
  bit-and k word (bit_xor (2 ^ b) 0xffffffff),
  bit-xor k (2 ^ b) 0xffffffff,
  bit-pow k b,
  bit-mask k 32,
  bit-lt k word,
)

-- A write of one page's bit is read back, and no other page's bit changes.
pub get_bit-set_bit :
    (i j : ℕ) (value : Bool) (p : Pmm)
    → i < max_pages
    → j < max_pages
    → pmm_get_bit j (pmm_set_bit i value p)
      ≡ (if i == j then (if value then 1 else 0) else pmm_get_bit j p)
unfolding pmm_set_bit
get_bit-set_bit i j value p hi hj = ground (
  arith,
  get_bit-bit j (pmm_set_bit i value p) hj,
  get_bit-bit j p hj,
  bit-set (j % 32) (i % 32) (p.bitmap (i / 32)),
  bit-clear (j % 32) (i % 32) (p.bitmap (i / 32)),
)

pub pmm_get_bit-le : (i : ℕ) (p : Pmm) → pmm_get_bit i p ≤ 1
unfolding pmm_get_bit
pmm_get_bit-le i p =
    ground (arith, shift-bit (i % 32) (p.bitmap (i / 32)), bit-lt (i % 32) (p.bitmap (i / 32)))
