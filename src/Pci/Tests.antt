-- ===== src/Pci/Tests.antt =====
-- The bus scan at concrete inputs.
use openkernel.Base.{ℕ, ◌≡◌, refl, ◌==◌, if◌then◌else◌}
use openkernel.Pci.{config_address, pci_config_read, func_loop, slot_loop, pci_find_device}

-- Every slot has eight functions of the vendor 1, but the last function of the last slot has the
-- vendor 0x8086.
abbrev full_bus : ℕ → ℕ
full_bus address = if address == 0x8000ff00 then 0x12348086 else 0x00800001

-- That device is there, and its number is the one for a device that is not found.
last_device : pci_find_device full_bus 0x8086 0x1234 ≡ 0xff
unfolding pci_find_device slot_loop func_loop pci_config_read config_address
last_device = refl

no_device : pci_find_device full_bus 0x8086 0x1235 ≡ 0xff
unfolding pci_find_device slot_loop func_loop pci_config_read config_address
no_device = refl
