-- ===== src/Graphics/Registers.antt =====
-- The VGA registers in src/kernel/display.c: the tables of the modes, and the state of the text mode
-- that is saved and restored. An index port selects a register, a data port has its value.
use Prim.Native.Nat.{bit_and, bit_or}
use openkernel.Base.{
  ℕ, zero, suc, ◌+◌, ◌*◌, Bool, true, false, ◌&&◌, List, [], ◌∷◌, ltb, if◌then◌else◌,
}
use openkernel.Graphics.Display.{font_row}
use openkernel.Graphics.Ports.{Machine}

abbrev pub mode13_seq : List ℕ
mode13_seq = 0x03 ∷ 0x01 ∷ 0x0F ∷ 0x00 ∷ 0x0E ∷ []

abbrev pub mode13_crtc : List ℕ
mode13_crtc =
    0x5F ∷ 0x4F ∷ 0x50 ∷ 0x82 ∷ 0x54 ∷ 0x80 ∷ 0xBF ∷ 0x1F ∷ 0x00 ∷ 0x41 ∷ 0x00 ∷ 0x00 ∷ 0x00 ∷ 0x00
    ∷ 0x00 ∷ 0x00 ∷ 0x9C ∷ 0x0E ∷ 0x8F ∷ 0x28 ∷ 0x40 ∷ 0x96 ∷ 0xB9 ∷ 0xA3 ∷ 0xFF ∷ []

abbrev pub mode13_gc : List ℕ
mode13_gc = 0x00 ∷ 0x00 ∷ 0x00 ∷ 0x00 ∷ 0x00 ∷ 0x40 ∷ 0x05 ∷ 0x0F ∷ 0xFF ∷ []

abbrev pub mode13_ac : List ℕ
mode13_ac =
    0x00 ∷ 0x01 ∷ 0x02 ∷ 0x03 ∷ 0x04 ∷ 0x05 ∷ 0x06 ∷ 0x07 ∷ 0x08 ∷ 0x09 ∷ 0x0A ∷ 0x0B ∷ 0x0C ∷ 0x0D
    ∷ 0x0E ∷ 0x0F ∷ 0x41 ∷ 0x00 ∷ 0x0F ∷ 0x00 ∷ 0x00 ∷ []

abbrev pub text_crtc : List ℕ
text_crtc =
    0x5F ∷ 0x4F ∷ 0x50 ∷ 0x82 ∷ 0x55 ∷ 0x81 ∷ 0xBF ∷ 0x1F ∷ 0x00 ∷ 0x4F ∷ 0x0D ∷ 0x0E ∷ 0x00 ∷ 0x00
    ∷ 0x00 ∷ 0x50 ∷ 0x9C ∷ 0x8E ∷ 0x8F ∷ 0x28 ∷ 0x1F ∷ 0x96 ∷ 0xB9 ∷ 0xA3 ∷ 0xFF ∷ []

abbrev pub text_gc : List ℕ
text_gc = 0x00 ∷ 0x00 ∷ 0x00 ∷ 0x00 ∷ 0x00 ∷ 0x10 ∷ 0x0E ∷ 0x00 ∷ 0xFF ∷ []

abbrev pub text_ac : List ℕ
text_ac =
    0x00 ∷ 0x01 ∷ 0x02 ∷ 0x03 ∷ 0x04 ∷ 0x05 ∷ 0x06 ∷ 0x07 ∷ 0x08 ∷ 0x09 ∷ 0x0A ∷ 0x0B ∷ 0x0C ∷ 0x0D
    ∷ 0x0E ∷ 0x0F ∷ 0x0C ∷ 0x00 ∷ 0x0F ∷ 0x08 ∷ 0x00 ∷ []

-- The palette's channels, in the order in which they are written.
abbrev pub palette : List ℕ
palette =
    0x00 ∷ 0x00 ∷ 0x00 ∷ 0x00 ∷ 0x00 ∷ 0x2A ∷ 0x00 ∷ 0x2A ∷ 0x00 ∷ 0x00 ∷ 0x2A ∷ 0x2A ∷ 0x2A ∷ 0x00
    ∷ 0x00 ∷ 0x2A ∷ 0x00 ∷ 0x2A ∷ 0x2A ∷ 0x15 ∷ 0x00 ∷ 0x2A ∷ 0x2A ∷ 0x2A ∷ 0x15 ∷ 0x15 ∷ 0x15
    ∷ 0x15 ∷ 0x15 ∷ 0x3F ∷ 0x15 ∷ 0x3F ∷ 0x15 ∷ 0x15 ∷ 0x3F ∷ 0x3F ∷ 0x3F ∷ 0x15 ∷ 0x15 ∷ 0x3F
    ∷ 0x15 ∷ 0x3F ∷ 0x3F ∷ 0x3F ∷ 0x15 ∷ 0x3F ∷ 0x3F ∷ 0x3F ∷ []

-- `vga_text_state_t`
pub record TextState : Type 0 where
  pub misc : ℕ
  pub seq : List ℕ
  pub crtc : List ℕ
  pub gc : List ℕ
  pub ac : List ℕ

module _ {S : Type 0} (io : Machine S) where
  open io use {outb, inb, poke}

  -- A write to the register `idx` behind a pair of ports.
  unfoldable pub write_indexed : ℕ → ℕ → ℕ → ℕ → S → S
  write_indexed index_port data_port idx val s = outb data_port val (outb index_port idx s)

  unfoldable pub read_indexed : ℕ → ℕ → ℕ → S → ℕ × S
  read_indexed index_port data_port idx s = inb data_port (outb index_port idx s)

  unfoldable pub vga_write_seq : ℕ → ℕ → S → S
  vga_write_seq idx val s = write_indexed 0x3C4 0x3C5 idx val s

  unfoldable pub vga_write_crtc : ℕ → ℕ → S → S
  vga_write_crtc idx val s = write_indexed 0x3D4 0x3D5 idx val s

  unfoldable pub vga_write_gc : ℕ → ℕ → S → S
  vga_write_gc idx val s = write_indexed 0x3CE 0x3CF idx val s

  -- The attribute controller has one port for both; a read of 0x3DA makes it wait for the index.
  unfoldable pub vga_write_ac : ℕ → ℕ → S → S
  vga_write_ac idx val s = outb 0x3C0 val (outb 0x3C0 idx (inb 0x3DA s).1)

  unfoldable pub vga_read_seq : ℕ → S → ℕ × S
  vga_read_seq idx s = read_indexed 0x3C4 0x3C5 idx s

  unfoldable pub vga_read_crtc : ℕ → S → ℕ × S
  vga_read_crtc idx s = read_indexed 0x3D4 0x3D5 idx s

  unfoldable pub vga_read_gc : ℕ → S → ℕ × S
  vga_read_gc idx s = read_indexed 0x3CE 0x3CF idx s

  unfoldable pub vga_read_ac : ℕ → S → ℕ × S
  vga_read_ac idx s = inb 0x3C1 (outb 0x3C0 idx (inb 0x3DA s).1)

  -- The loops that write a table from register `i` on.
  unfoldable pub write_all : (ℕ → ℕ → S → S) → ℕ → List ℕ → S → S
  write_all write i [] s = s
  write_all write i (v ∷ vs) s = write_all write (i + 1) vs (write i v s)

  -- The loops that read `k` registers from `i` on.
  unfoldable pub read_all : (ℕ → S → ℕ × S) → ℕ → ℕ → S → List ℕ × S
  read_all read zero i s = ([], s)
  read_all read (suc k) i s =
      let r = read i s in let rest = read_all read k (i + 1) r.1 in (r.0 ∷ rest.0, rest.1)

  -- Video output through the attribute controller goes on.
  unfoldable pub enable_video : S → S
  enable_video s = outb 0x3C0 0x20 (inb 0x3DA s).1

  unfoldable pub vga_set_cursor_visible : Bool → S → S
  vga_set_cursor_visible true s = vga_write_crtc 0x0A 0x0D s
  vga_set_cursor_visible false s =
      vga_write_crtc 0x0F 0xFF (vga_write_crtc 0x0E 0xFF (vga_write_crtc 0x0A 0x20 s))

  -- The registers of mode 0x13, with the locks of the first eight registers of the CRTC taken off.
  unfoldable pub program_mode13 : S → S
  program_mode13 s =
      let s1 = write_all vga_write_seq 0 mode13_seq (outb 0x3C2 0x63 s) in
      let lock3 = vga_read_crtc 0x03 s1 in
      let s2 = outb 0x3D5 (bit_or lock3.0 0x80) lock3.1 in
      let lock11 = vga_read_crtc 0x11 s2 in
      let s3 = outb 0x3D5 (bit_and lock11.0 0x7F) lock11.1 in
      let s4 = write_all vga_write_crtc 0 mode13_crtc s3 in
      let s5 = write_all vga_write_gc 0 mode13_gc s4 in
      enable_video (write_all vga_write_ac 0 mode13_ac s5)

  -- The sequencer is reset around the writes of its registers from 1 on.
  unfoldable pub vga_set_text_mode_80x25 : S → S
  vga_set_text_mode_80x25 s =
      let s1 = vga_write_seq 1 0x20 (vga_write_seq 0 1 (outb 0x3C2 0x67 s)) in
      let s2 = vga_write_seq 0 3 (write_all vga_write_seq 1 (0x00 ∷ 0x03 ∷ 0x00 ∷ 0x07 ∷ []) s1) in
      let s3 = write_all vga_write_crtc 0 text_crtc (vga_write_crtc 0x11 0x0E s2) in
      let s4 = write_all vga_write_gc 0 text_gc s3 in
      enable_video (write_all vga_write_ac 0 text_ac s4)

  unfoldable pub vga_restore_default_dac_16 : S → S
  vga_restore_default_dac_16 s =
      write_all (λ _ channel t. outb 0x3C9 channel t) 0 palette (outb 0x3C8 0 s)

  unfoldable pub vga_snapshot_text_state : Bool → TextState → S → TextState × S
  vga_snapshot_text_state true saved s = (saved, s)
  vga_snapshot_text_state false saved s =
      let misc = inb 0x3CC s in
      let seq = read_all vga_read_seq 5 0 misc.1 in
      let crtc = read_all vga_read_crtc 25 0 seq.1 in
      let gc = read_all vga_read_gc 9 0 crtc.1 in
      let ac = read_all vga_read_ac 21 0 gc.1 in
      (record { misc = misc.0; seq = seq.0; crtc = crtc.0; gc = gc.0; ac = ac.0 }, ac.1)

  unfoldable pub vga_restore_text_state : Bool → TextState → S → S
  vga_restore_text_state false saved s = s
  vga_restore_text_state true saved s =
      let s1 = write_all vga_write_seq 0 saved.seq (outb 0x3C2 saved.misc s) in
      let lock = vga_read_crtc 0x11 s1 in
      let s2 = vga_write_crtc 0x11 (bit_and lock.0 0x7F) lock.1 in
      let s3 = write_all vga_write_crtc 0 saved.crtc s2 in
      let s4 = write_all vga_write_gc 0 saved.gc s3 in
      enable_video (write_all vga_write_ac 0 saved.ac s4)

  -- The loops of `vga_reload_font_plane2` over the rows of a character, and over the characters.
  unfoldable pub font_rows : ℕ → ℕ → ℕ → S → S
  font_rows zero ch row s = s
  font_rows (suc k) ch row s =
      let v = if ltb ch 128 && ltb row 8 then font_row ch row else 0 in
      font_rows k ch (row + 1) (poke (0xA0000 + ch * 32 + row) v s)

  unfoldable pub font_chars : ℕ → ℕ → S → S
  font_chars zero ch s = s
  font_chars (suc k) ch s = font_chars k (ch + 1) (font_rows 32 ch 0 s)

  unfoldable pub vga_reload_font_plane2 : S → S
  vga_reload_font_plane2 s =
      let seq2 = vga_read_seq 0x02 s in
      let seq4 = vga_read_seq 0x04 seq2.1 in
      let gc4 = vga_read_gc 0x04 seq4.1 in
      let gc5 = vga_read_gc 0x05 gc4.1 in
      let gc6 = vga_read_gc 0x06 gc5.1 in
      let s1 = vga_write_seq 0x04 0x06 (vga_write_seq 0x02 0x04 gc6.1) in
      let s2 = vga_write_gc 0x06 0x04 (vga_write_gc 0x05 0x00 (vga_write_gc 0x04 0x02 s1)) in
      let s3 = font_chars 256 0 s2 in
      let s4 = vga_write_seq 0x04 seq4.0 (vga_write_seq 0x02 seq2.0 s3) in
      vga_write_gc 0x06 gc6.0 (vga_write_gc 0x05 gc5.0 (vga_write_gc 0x04 gc4.0 s4))
