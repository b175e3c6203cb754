-- ===== src/Graphics/Vbe.antt =====
-- src/kernel/vbe.c: a mode by the Bochs registers, and the frame buffer's address by the PCI
-- configuration of the first display controller.
use Prim.Native.Nat.{bit_and, bit_or}
use openkernel.Base.{
  ℕ, zero, suc, ◌+◌, ◌*◌, ◌/◌, ◌%◌, ◌^◌, Bool, true, false, ◌&&◌, List, [], ◌∷◌, ◌==◌,
  if◌then◌else◌,
}
use openkernel.Graphics.Ports.{Machine}
use openkernel.Graphics.Backends.{probe_bochs_vbe, set_resolution, accepted}

-- `vbe_mode_t`
pub record VbeMode : Type 0 where
  pub width : ℕ
  pub height : ℕ
  pub bpp : ℕ
  pub pitch : ℕ
  pub framebuffer : ℕ

module _ {S : Type 0} (io : Machine S) where
  open io use {outl, inl, poke32, peek32}

  unfoldable pub pci_read : ℕ → ℕ → ℕ → ℕ → S → ℕ × S
  pci_read bus slot func off s =
      let low = bit_or (bit_and slot 0x1F * 2 ^ 11) (bit_and func 7 * 2 ^ 8) in
      let addr = bit_or (bit_or (bit_or 0x80000000 (bus * 2 ^ 16)) low) (bit_and off 0xFC) in
      inl 0xCFC (outl 0xCF8 addr s)

  -- What is read of a slot: the address of a display controller whose first region is memory.
  unfoldable pub slot_framebuffer : ℕ → S → (Bool × ℕ) × S
  slot_framebuffer slot s =
      let id = pci_read 0 slot 0 0 s in
      let cls = pci_read 0 slot 0 8 id.1 in
      let bar0 = pci_read 0 slot 0 0x10 cls.1 in
      let is_display =
        (bit_and (cls.0 / 2 ^ 24) 0xFF == 0x03) && (bit_and (cls.0 / 2 ^ 16) 0xFF == 0x00) in
      if bit_and id.0 0xFFFF == 0xFFFF
      then ((false, 0), id.1)
      else (if is_display
          then (if bit_and bar0.0 1 == 0
              then ((true, bit_and bar0.0 0xFFFFFFF0), bar0.1)
              else ((false, 0), bar0.1))
          else ((false, 0), cls.1))

  -- The loop over the slots, with `k` rounds left; 0 where no slot has one.
  unfoldable pub slots : ℕ → ℕ → S → ℕ × S
  slots zero slot s = (0, s)
  slots (suc k) slot s =
      let here = slot_framebuffer slot s in
      let rest = slots k (slot + 1) here.1 in if here.0.0 then (here.0.1, here.1) else rest

  -- The loop over the addresses that are tried by a write.
  unfoldable pub try_addresses : List ℕ → S → ℕ × S
  try_addresses [] s = (0, s)
  try_addresses (a ∷ as_left) s =
      let back = peek32 a (poke32 a 0xDEADBEEF s) in
      let rest = try_addresses as_left back.1 in if back.0 == 0xDEADBEEF then (a, back.1) else rest

  unfoldable pub framebuffer_address : S → ℕ × S
  framebuffer_address s =
      let found = slots 32 0 s in
      let tried = try_addresses (0xFC000000 ∷ 0xFD000000 ∷ 0xE0000000 ∷ 0xF0000000 ∷ []) found.1 in
      if found.0 == 0 then (if tried.0 == 0 then (0xFD000000, tried.1) else tried) else found

  unfoldable pub vbe_init : ℕ → ℕ → ℕ → VbeMode → S → Bool × VbeMode × S
  vbe_init width height bpp v s =
      let probe = probe_bochs_vbe io s in
      let read = accepted io width height bpp (set_resolution io width height bpp probe.1) in
      let fb = framebuffer_address read.1 in
      if probe.0
      then (if read.0
          then (
            true,
            record {
              width = width;
              height = height;
              bpp = bpp;
              pitch = width * (bpp / 8) % 2 ^ 16;
              framebuffer = fb.0;
            },
            fb.1,
          )
          else (false, v, read.1))
      else (false, v, probe.1)
