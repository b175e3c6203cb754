-- ===== src/Segments.antt =====
-- The descriptor table of src/kernel/gdt.c. Loading it, and the segment registers after it, is left
-- out; the address of the table is an argument.
pub mod Decode
mod Tests
use Prim.Native.Nat.{bit_and, bit_or}
use openkernel.Base.{ℕ, ◌-◌, ◌*◌, ◌/◌, ◌%◌, ◌^◌, update}

-- `gdt_entry_t`
pub record Descriptor : Type 0 where
  pub limit_low : ℕ
  pub base_low : ℕ
  pub base_middle : ℕ
  pub access : ℕ
  pub granularity : ℕ
  pub base_high : ℕ

-- `gdt_entries` and `gdt_ptr`
pub record Gdt : Type 0 where
  pub entries : ℕ → Descriptor
  pub limit : ℕ
  pub base : ℕ

unfoldable pub gdt_set_entry : ℕ → ℕ → ℕ → ℕ → ℕ → Gdt → Gdt
gdt_set_entry num base limit access gran g = record g {
  entries = update g.entries num (record {
    base_low = bit_and base 0xffff;
    base_middle = bit_and (base / 2 ^ 16) 0xff;
    base_high = bit_and (base / 2 ^ 24) 0xff;
    limit_low = bit_and limit 0xffff;
    granularity = bit_or (bit_and (limit / 2 ^ 16) 0x0f) (bit_and (gran % 2 ^ 8) 0xf0);
    access = access % 2 ^ 8;
  });
}

-- `at` is the address of `gdt_entries`, of 3 descriptors of 8 bytes.
unfoldable pub gdt_init : ℕ → Gdt → Gdt
gdt_init at g =
    let g0 = gdt_set_entry 0 0 0 0 0 (record g { limit = 3 * 8 - 1; base = at }) in
    let g1 = gdt_set_entry 1 0 0xffffffff 0x9a 0xcf g0 in gdt_set_entry 2 0 0xffffffff 0x92 0xcf g1
