-- ===== src/Pci.antt =====
-- The bus scan of src/kernel/pci.c. The configuration space, which the code reads through two ports
-- in assembly, is an argument: the word at a configuration address.
mod Tests
use Prim.Native.Nat.{bit_and, bit_or}
use openkernel.Base.{
  ℕ, zero, suc, ◌+◌, ◌*◌, ◌/◌, ◌^◌, ◌&&◌, Option, none, some, ◌==◌, if◌then◌else◌,
}

-- The configuration address of a register.
unfoldable pub config_address : ℕ → ℕ → ℕ → ℕ → ℕ
config_address bus slot func offset =
    bit_or
      (bit_or (bit_or (bit_or (bus * 2 ^ 16) (slot * 2 ^ 11)) (func * 2 ^ 8)) (bit_and offset 0xfc))
      0x80000000

unfoldable pub pci_config_read : (ℕ → ℕ) → ℕ → ℕ → ℕ → ℕ → ℕ
pci_config_read word_at bus slot func offset = word_at (config_address bus slot func offset)

-- `(slot << 3) | func`
abbrev pub device : ℕ → ℕ → ℕ
device slot func = bit_or (slot * 2 ^ 3) func

-- The loop of `pci_find_device` over the functions of a slot on bus 0, with `k` rounds left.
unfoldable pub func_loop : ℕ → ℕ → (ℕ → ℕ) → ℕ → ℕ → ℕ → Option ℕ
func_loop zero func word_at slot vendor_id device_id = none
func_loop (suc k) func word_at slot vendor_id device_id =
    let id = pci_config_read word_at 0 slot func 0 in
    let vendor = bit_and id 0xffff in
    let dev = bit_and (id / 2 ^ 16) 0xffff in
    let single = bit_and (pci_config_read word_at 0 slot func 0x0c) 0x800000 == 0 in
    let rest = func_loop k (func + 1) word_at slot vendor_id device_id in
    if vendor == 0xffff
    then none
    else (if (vendor == vendor_id) && (dev == device_id)
        then some (device slot func)
        else (if (func == 0) && single then none else rest))

-- The loop over the slots, with `k` rounds left; 0xff means not found.
unfoldable pub slot_loop : ℕ → ℕ → (ℕ → ℕ) → ℕ → ℕ → ℕ
slot_loop zero slot word_at vendor_id device_id = 0xff
slot_loop (suc k) slot word_at vendor_id device_id =
    let rest = slot_loop k (slot + 1) word_at vendor_id device_id in
    elim (func_loop 8 0 word_at slot vendor_id device_id) [ none ↦ rest | some d ↦ d ]

unfoldable pub pci_find_device : (ℕ → ℕ) → ℕ → ℕ → ℕ
pci_find_device word_at vendor_id device_id = slot_loop 32 0 word_at vendor_id device_id

-- The loop of `pci_find_vga`, with `k` rounds left.
unfoldable pub vga_loop : ℕ → ℕ → (ℕ → ℕ) → ℕ
vga_loop zero slot word_at = 0xff
vga_loop (suc k) slot word_at =
    let vendor = bit_and (pci_config_read word_at 0 slot 0 0) 0xffff in
    let class_reg = pci_config_read word_at 0 slot 0 0x08 in
    let class_code = bit_and (class_reg / 2 ^ 24) 0xff in
    let subclass = bit_and (class_reg / 2 ^ 16) 0xff in
    let rest = vga_loop k (slot + 1) word_at in
    if vendor == 0xffff
    then rest
    else (if (class_code == 0x03) && (subclass == 0x00) then device slot 0 else rest)

unfoldable pub pci_find_vga : (ℕ → ℕ) → ℕ
pci_find_vga word_at = vga_loop 32 0 word_at
