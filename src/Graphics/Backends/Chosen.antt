-- ===== src/Graphics/Backends/Chosen.antt =====
-- What the choice of a backend leaves as the mode, on any machine.
use mathlib.Core.Path.{subst}
use openkernel.Base.{◌≡◌, ◌≢◌, inl, inr, refl, Bool, true, false, if◌then◌else◌, ◌&&◌, sym, arith}
use openkernel.Graphics.Display.{Mode, disp_vga_text, disp_bochs_vbe}
use openkernel.Graphics.Display.Pixels.{Fits}
use openkernel.Graphics.Ports.{Machine}
use openkernel.Graphics.Registers.{
  TextState, vga_write_seq, vga_set_cursor_visible, vga_snapshot_text_state,
}
use openkernel.Graphics.Backends.{
  text_mode, mode13, probe_bochs_vbe, bochs_set_mode, probe_vga_mode13, display_disable, hide_text,
  display_enter_gfx, display_init,
}

-- Graphics that can be drawn in, where the answer is that there are; the text screen otherwise.
abbrev pub Chosen : Bool → Mode → Type 0
Chosen true d = Fits d × (d.type ≢ disp_vga_text)
Chosen false d = d ≡ text_mode

mode13-Chosen : Chosen true mode13
mode13-Chosen =
    (record { ready = refl; depth = inl refl; row = omega arith; size = omega arith }, omega arith)

abbrev mode800 : Mode
mode800 = record {
  width = 800;
  height = 600;
  bpp = 32;
  pitch = 3200;
  addr = 0xFD000000;
  type = disp_bochs_vbe;
  available = true;
}

mode800-Chosen : Chosen true mode800
mode800-Chosen = (
  record { ready = refl; depth = inr (inr refl); row = omega arith; size = omega arith },
  omega arith,
)

set_800 :
    {S : Type 0} (io : Machine S) (d : Mode) (s : S)
    → (bochs_set_mode io 800 600 32 d s).0 ≡ true
    → (bochs_set_mode io 800 600 32 d s).1 ≡ mode800
unfolding bochs_set_mode
set_800 io d s e = ground arith

set_13 :
    {S : Type 0} (io : Machine S) (d : Mode) (s : S)
    → (probe_vga_mode13 io d s).0 ≡ true
    → (probe_vga_mode13 io d s).1 ≡ mode13
unfolding probe_vga_mode13
set_13 io d s e = ground arith

bochs-Chosen :
    {S : Type 0} (io : Machine S) (d : Mode) (s : S)
    → (bochs_set_mode io 800 600 32 d s).0 ≡ true
    → Chosen true (bochs_set_mode io 800 600 32 d s).1
bochs-Chosen io d s e = subst (Chosen true) (sym (set_800 io d s e)) mode800-Chosen

vga-Chosen :
    {S : Type 0} (io : Machine S) (d : Mode) (s : S)
    → (probe_vga_mode13 io d s).0 ≡ true
    → Chosen true (probe_vga_mode13 io d s).1
vga-Chosen io d s e = subst (Chosen true) (sym (set_13 io d s e)) mode13-Chosen

both : (a b : Bool) → (a && b) ≡ true → b ≡ true
both true b e = e
both false b e = cc

-- The shape of the two choices.
choice :
    {S : Type 0} (found vga : Bool) (x y : Mode) (p q t : S)
    → (found ≡ true → Chosen true x)
    → (vga ≡ true → Chosen true y)
    → let r : Bool × Mode × S =
        if found then (true, x, p) else (if vga then (true, y, q) else (false, text_mode, t)) in
      Chosen r.0 r.1
choice true vga x y p q t hx hy = hx refl
choice false true x y p q t hx hy = hy refl
choice false false x y p q t hx hy = refl

choice_with :
    {S : Type 0} (found vga : Bool) (x y : Mode) (saved : TextState) (p q t : S)
    → (found ≡ true → Chosen true x)
    → (vga ≡ true → Chosen true y)
    → let r : Bool × Mode × TextState × S =
        if found
        then (true, x, saved, p)
        else (if vga then (true, y, saved, q) else (false, text_mode, saved, t)) in
      Chosen r.0 r.1
choice_with true vga x y saved p q t hx hy = hx refl
choice_with false true x y saved p q t hx hy = hy refl
choice_with false false x y saved p q t hx hy = refl

module _ {S : Type 0} (io : Machine S) where
  -- On any machine and from any mode, display_init, and display_enter_gfx whether or not the text
  -- state is saved, answer true with a graphics mode of 8, 16 or 32 bits that is ready and whose
  -- rows hold their pixels within 32 bits, or false with the text mode of 80 by 25.
  pub display_init-Chosen :
      (saved : Bool) (text : TextState) (d : Mode) (s : S)
      → Chosen (display_init io d s).0 (display_init io d s).1
        × Chosen (display_enter_gfx io saved text d s).0 (display_enter_gfx io saved text d s).1
  unfolding display_init display_enter_gfx display_disable
  display_init-Chosen saved text d s =
      let off = record d { available = false } in
      let probe = probe_bochs_vbe io s in
      let set = bochs_set_mode io 800 600 32 off probe.1 in
      let vga = probe_vga_mode13 io off (if probe.0 then set.2 else probe.1) in
      let shot = vga_snapshot_text_state io saved text s in
      let s1 = vga_write_seq io 1 0x20 (vga_set_cursor_visible io false shot.1) in
      let probe' = probe_bochs_vbe io s1 in
      let set' = bochs_set_mode io 800 600 32 d probe'.1 in
      let left' = if probe'.0 then set'.2 else probe'.1 in
      let vga' = probe_vga_mode13 io d left' in
      (
        choice (probe.0 && set.0) vga.0 set.1 vga.1 set.2 vga.2 vga.2
            (λ e. bochs-Chosen io off probe.1 (both probe.0 set.0 e))
            (vga-Chosen io off (if probe.0 then set.2 else probe.1)),
        choice_with (probe'.0 && set'.0) vga'.0 set'.1 vga'.1 shot.0 (hide_text io set'.2) vga'.2
            (display_disable io true shot.0 vga'.2).1
            (λ e. bochs-Chosen io d probe'.1 (both probe'.0 set'.0 e)) (vga-Chosen io d left'),
      )
