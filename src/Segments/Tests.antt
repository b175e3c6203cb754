-- ===== src/Segments/Tests.antt =====
-- The descriptors of the kernel.
use openkernel.Base.{◌≡◌, refl, arith}
use openkernel.Segments.{Gdt, gdt_init, gdt_set_entry}
use openkernel.Segments.Decode.{decode, gdt_set_entry_lem}

abbrev off : Gdt
off = record {
  entries = λ _. record {
    limit_low = 0;
    base_low = 0;
    base_middle = 0;
    access = 0;
    granularity = 0;
    base_high = 0;
  };
  limit = 0;
  base = 0;
}

-- Code and data of the kernel are all of memory.
flat :
    (decode ((gdt_init 0x7000 off).entries 1) ≡ (0, 0xfffff, 0x9a, 0xc))
    × (decode ((gdt_init 0x7000 off).entries 2) ≡ (0, 0xfffff, 0x92, 0xc))
unfolding gdt_init gdt_set_entry
flat = (refl, refl)

gdt_set_entry_lem_example :
    decode ((gdt_set_entry 2 0x12345678 0xabcde 0x92 0xcf off).entries 2)
    ≡ (0x12345678, 0xabcde, 0x92, 0xc)
gdt_set_entry_lem_example =
    gdt_set_entry_lem 2 0x12345678 0xabcde 0x92 0xcf off (omega arith) (omega arith) (omega arith)
