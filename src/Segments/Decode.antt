-- ===== src/Segments/Decode.antt =====
-- What the processor reads in a descriptor.
use Prim.Native.Nat.{bit_and, bit_or, bit_or-bitwise}
use openkernel.Base.{ℕ, ◌+◌, ◌*◌, ◌/◌, ◌%◌, ◌^◌, ◌<◌, ◌≡◌, refl, ap, ◌∙◌, update_self, arith}
use openkernel.Base.Bits.{bit_and_mask}
use openkernel.Base.Bits.Masks.{or_step, and-shifted}
use openkernel.Segments.{Descriptor, Gdt, gdt_set_entry}

-- The base, the limit, the access byte and the four flags.
abbrev pub decode : Descriptor → ℕ × ℕ × ℕ × ℕ
decode d = (
  d.base_low + d.base_middle * 2 ^ 16 + d.base_high * 2 ^ 24,
  d.limit_low + d.granularity % 16 * 2 ^ 16,
  d.access,
  d.granularity / 16,
)

or_half : (x y : ℕ) → bit_or x (y * 2) ≡ bit_or (x / 2) y * 2 + x % 2
or_half x y =
    let half : y * 2 / 2 ≡ y = omega arith in
    let even : y * 2 % 2 ≡ 0 = omega arith in or_step x (y * 2) ∙ rw (half, even) (omega arith)

-- Low digits below a number shifted by four.
or_apart : (a b : ℕ) → a < 16 → bit_or a (b * 2 * 2 * 2 * 2) ≡ a + b * 16
or_apart a b h =
    let none_left : a / 2 / 2 / 2 / 2 ≡ 0 = omega arith in
    let last : bit_or (a / 2 / 2 / 2 / 2) b ≡ b = rw none_left (bit_or-bitwise 0 b) in
    omega (
      arith,
      or_half a (b * 2 * 2 * 2),
      or_half (a / 2) (b * 2 * 2),
      or_half (a / 2 / 2) (b * 2),
      or_half (a / 2 / 2 / 2) b,
      last,
    )

-- `gdt_set_entry` of a base of 32 bits, a limit, and bytes for the access and the flags: the
-- processor reads back the base, the low 20 bits of the limit, the access and the high flags.
pub gdt_set_entry_lem :
    (num base limit access gran : ℕ) (g : Gdt)
    → base < 2 ^ 32
    → access < 2 ^ 8
    → gran < 2 ^ 8
    → decode ((gdt_set_entry num base limit access gran g).entries num)
      ≡ (base, limit % 2 ^ 20, access, gran / 16)
unfolding gdt_set_entry
gdt_set_entry_lem num base limit access gran g h h' h'' =
    let low : bit_and (limit / 2 ^ 16) 0x0f < 16 = omega (arith, bit_and_mask 4 (limit / 2 ^ 16)) in
    let high : bit_and (gran % 2 ^ 8) 0xf0 ≡ gran / 16 * 2 * 2 * 2 * 2 =
      and-shifted 4 (gran % 2 ^ 8) 15 ∙ omega (arith, bit_and_mask 4 (gran % 2 ^ 8 / 2 ^ 4)) in
    let flags : bit_or (bit_and (limit / 2 ^ 16) 0x0f) (bit_and (gran % 2 ^ 8) 0xf0)
        ≡ limit / 2 ^ 16 % 16 + gran / 16 * 16 =
      ap (bit_or (bit_and (limit / 2 ^ 16) 0x0f)) high
      ∙ or_apart _ (gran / 16) low
      ∙ ap (λ t. t + gran / 16 * 16) (bit_and_mask 4 (limit / 2 ^ 16)) in
    let whole : bit_and base 0xffff
          + bit_and (base / 2 ^ 16) 0xff * 2 ^ 16
          + bit_and (base / 2 ^ 24) 0xff * 2 ^ 24
        ≡ base =
      omega (
        arith,
        bit_and_mask 16 base,
        bit_and_mask 8 (base / 2 ^ 16),
        bit_and_mask 8 (base / 2 ^ 24),
      ) in
    let limit_bits : bit_and limit 0xffff + (limit / 2 ^ 16 % 16 + gran / 16 * 16) % 16 * 2 ^ 16
        ≡ limit % 2 ^ 20 =
      omega (arith, bit_and_mask 16 limit) in
    let gran_bits : (limit / 2 ^ 16 % 16 + gran / 16 * 16) / 16 ≡ gran / 16 = omega arith in
    let byte : access % 2 ^ 8 ≡ access = omega arith in
    ap decode (update_self g.entries num _) ∙ rw (flags, whole, limit_bits, gran_bits, byte) refl
