-- ===== src/Graphics/Backends.antt =====
-- The backends of src/kernel/display.c and the choice among them. What they print is left out.
pub mod Chosen
use Prim.Native.Nat.{bit_and, bit_or}
use openkernel.Base.{
  ℕ, zero, suc, ◌+◌, ◌*◌, ◌/◌, ◌%◌, ◌^◌, Bool, true, false, ◌&&◌, ◌||◌, ltb, ◌==◌, if◌then◌else◌,
}
use openkernel.Graphics.Multiboot.{MultibootInfo}
use openkernel.Graphics.Display.{Mode, disp_vga_text, disp_vga_graph, disp_vesa_vbe, disp_bochs_vbe}
use openkernel.Graphics.Ports.{Machine}
use openkernel.Graphics.Registers.{
  TextState, vga_write_seq, vga_write_gc, vga_write_ac, enable_video, program_mode13,
  vga_set_cursor_visible, vga_snapshot_text_state, vga_restore_text_state,
}

-- The mode becomes that of the boot loader's frame buffer; 16 bits are kept of its sizes.
unfoldable pub probe_multiboot_vbe : MultibootInfo → Mode → Bool × Mode
probe_multiboot_vbe mbd d =
    let bpp = mbd.framebuffer_bpp in
    if bit_and mbd.flags (2 ^ 12) == 0
    then (false, d)
    else (if mbd.framebuffer_type == 1
        then (if (bpp == 32) || (bpp == 24) || (bpp == 16)
            then (
              true,
              record {
                width = mbd.framebuffer_width % 2 ^ 16;
                height = mbd.framebuffer_height % 2 ^ 16;
                bpp = bpp;
                pitch = mbd.framebuffer_pitch % 2 ^ 16;
                addr = mbd.framebuffer_addr_low;
                type = disp_vesa_vbe;
                available = true;
              },
            )
            else (false, d))
        else (false, d))

unfoldable pub display_init_multiboot : MultibootInfo → Mode → Bool × Mode
display_init_multiboot mbd d = probe_multiboot_vbe mbd d

-- `probe_vga_text`
abbrev pub text_mode : Mode
text_mode = record {
  width = 80;
  height = 25;
  bpp = 0;
  pitch = 160;
  addr = 0xB8000;
  type = disp_vga_text;
  available = true;
}

-- The mode that `probe_vga_mode13` sets.
abbrev pub mode13 : Mode
mode13 = record {
  width = 320;
  height = 200;
  bpp = 8;
  pitch = 320;
  addr = 0xA0000;
  type = disp_vga_graph;
  available = true;
}

abbrev pub index_id : ℕ
index_id = 0

abbrev pub index_xres : ℕ
index_xres = 1

abbrev pub index_yres : ℕ
index_yres = 2

abbrev pub index_bpp : ℕ
index_bpp = 3

abbrev pub index_enable : ℕ
index_enable = 4

module _ {S : Type 0} (io : Machine S) where
  open io use {outb, outw, inw, poke, peek}

  unfoldable pub vbe_write : ℕ → ℕ → S → S
  vbe_write idx val s = outw 0x01CF val (outw 0x01CE idx s)

  unfoldable pub vbe_read : ℕ → S → ℕ × S
  vbe_read idx s = inw 0x01CF (outw 0x01CE idx s)

  -- A device identifies itself by what it reads back: by 0xB0C4, or else by 0xB0C0.
  unfoldable pub probe_bochs_vbe : S → Bool × S
  probe_bochs_vbe s =
      let first = vbe_read index_id (vbe_write index_id 0xB0C4 s) in
      let second = vbe_read index_id (vbe_write index_id 0xB0C0 first.1) in
      if first.0 == 0xB0C4 then (true, first.1) else (second.0 == 0xB0C0, second.1)

  -- The device is told the mode with its output off.
  unfoldable pub set_resolution : ℕ → ℕ → ℕ → S → S
  set_resolution w h bpp s = vbe_write index_enable (bit_or 0x01 0x40) (
      vbe_write index_bpp bpp
        (vbe_write index_yres h (vbe_write index_xres w (vbe_write index_enable 0x00 s))))

  -- `||` reads no further register after one that differs.
  unfoldable pub accepted : ℕ → ℕ → ℕ → S → Bool × S
  accepted w h bpp s =
      let x = vbe_read index_xres s in
      let y = vbe_read index_yres x.1 in
      let b = vbe_read index_bpp y.1 in
      if x.0 == w then (if y.0 == h then (b.0 == bpp, b.1) else (false, y.1)) else (false, x.1)

  unfoldable pub bochs_set_mode : ℕ → ℕ → ℕ → Mode → S → Bool × Mode × S
  bochs_set_mode w h bpp d s =
      let read = accepted w h bpp (set_resolution w h bpp s) in
      if read.0
      then (
        true,
        record {
          width = w;
          height = h;
          bpp = bpp % 2 ^ 8;
          pitch = w * (bpp / 8) % 2 ^ 16;
          addr = 0xFD000000;
          type = disp_bochs_vbe;
          available = true;
        },
        read.1,
      )
      else (false, d, read.1)

  -- The first byte of the VGA memory takes a value and gets its old one back.
  unfoldable pub vga_writable : S → Bool × S
  vga_writable s =
      let old = peek 0xA0000 s in
      let test = peek 0xA0000 (poke 0xA0000 0xAA old.1) in
      (test.0 == 0xAA, poke 0xA0000 old.0 test.1)

  unfoldable pub probe_vga_mode13 : Mode → S → Bool × Mode × S
  probe_vga_mode13 d s =
      let test = vga_writable s in
      if test.0 then (true, mode13, program_mode13 io test.1) else (false, d, test.1)

  unfoldable pub display_disable : Bool → TextState → S → Mode × S
  display_disable saved text s =
      let s1 = vga_restore_text_state io saved text (vbe_write index_enable 0x00 s) in
      (text_mode, vga_set_cursor_visible io false s1)

  -- The loop that blanks the cells of the text screen.
  unfoldable pub blank_text : ℕ → ℕ → S → S
  blank_text zero i s = s
  blank_text (suc k) i s =
      blank_text k (i + 1) (poke (0xB8000 + 2 * i + 1) 0x00 (poke (0xB8000 + 2 * i) 32 s))

  -- What `display_enter_gfx` does to the VGA registers once the mode is set.
  unfoldable pub hide_text : S → S
  hide_text s =
      let s1 =
        vga_write_gc io 0x06 0x05 (vga_write_gc io 0x05 0x00 (vga_write_seq io 0x02 0x00 s)) in
      let s2 = enable_video io (vga_write_ac io 0x10 0x01 s1) in
      vga_write_seq io 0x01 0x00 (blank_text 2000 0 s2)

  -- Whether the registers are saved is the second to last component.
  unfoldable pub display_enter_gfx : Bool → TextState → Mode → S → Bool × Mode × TextState × S
  display_enter_gfx saved text d s =
      let shot = vga_snapshot_text_state io saved text s in
      let s1 = vga_write_seq io 0x01 0x20 (vga_set_cursor_visible io false shot.1) in
      let probe = probe_bochs_vbe s1 in
      let set = bochs_set_mode 800 600 32 d probe.1 in
      let found = probe.0 && set.0 in
      let left = if probe.0 then set.2 else probe.1 in
      let vga = probe_vga_mode13 d left in
      let off = display_disable true shot.0 vga.2 in
      if found
      then (true, set.1, shot.0, hide_text set.2)
      else (if vga.0 then (true, vga.1, shot.0, vga.2) else (false, off.0, shot.0, off.1))

  unfoldable pub display_init : Mode → S → Bool × Mode × S
  display_init d s =
      let none_yet = record d { available = false } in
      let probe = probe_bochs_vbe s in
      let set = bochs_set_mode 800 600 32 none_yet probe.1 in
      let left = if probe.0 then set.2 else probe.1 in
      let vga = probe_vga_mode13 none_yet left in
      if probe.0 && set.0
      then (true, set.1, set.2)
      else (if vga.0 then (true, vga.1, vga.2) else (false, text_mode, vga.2))
