-- ===== src/Graphics/Tests.antt =====
-- Drawing and the choice of a backend at concrete inputs.
use openkernel.Base.{
  ◌≡◌, inr, refl, true, false, ◌&&◌, leb, if◌then◌else◌, take, [], codes, arith, ℕ, ◌<◌, ◌≤◌, ◌+◌,
  ◌%◌, ◌^◌,
}
use openkernel.Graphics.Bytes.{Bytes}
use openkernel.Graphics.Canvas.{spans}
use openkernel.Graphics.Display.{
  Mode, display_puts_line, display_clear, display_fill_rect, font_row,
}
use openkernel.Graphics.Display.Pixels
use openkernel.Graphics.Display.Lines.{first_line, line_lit, display_puts_line_lem}
use openkernel.Graphics.Display.Clear.{display_clear_lem}
use openkernel.Graphics.Framebuffer.{Framebuffer, fb_fill_rect}
use openkernel.Graphics.Framebuffer.Pixels as Fb
use openkernel.Graphics.Ports.{Machine}
use openkernel.Graphics.Registers.{TextState}
use openkernel.Graphics.Backends.{text_mode, display_init, display_enter_gfx}
use openkernel.Graphics.Backends.Chosen.{Chosen, display_init-Chosen}

abbrev buffer : Framebuffer
buffer = record {
  fb = record { address = 0; pitch = 16; width = 4; height = 3; bpp = 32; type = 1 };
  fb_initialized = true;
}

abbrev black : Bytes
black = λ _. 0

fb_fill_rect_lem_example :
    ((i j : ℕ)
      → i < 4
      → j < 3
      → Fb.pixel buffer (fb_fill_rect buffer 1 1 2 7 0xFF00FF black) i j
        ≡ (if spans 1 2 i && spans 1 7 j then 0xFF00FF % 2 ^ 32 else Fb.pixel buffer black i j))
    × ((b : ℕ) → 48 ≤ b → fb_fill_rect buffer 1 1 2 7 0xFF00FF black b ≡ 0)
fb_fill_rect_lem_example =
    Fb.fb_fill_rect_lem buffer
      (record { initialized = refl; row = omega arith; size = omega arith }) 1 1 2 7 0xFF00FF black
      (omega arith) (omega arith)

-- Two characters of a line fit on this display.
abbrev narrow : Mode
narrow = record {
  width = 40;
  height = 20;
  bpp = 32;
  pitch = 160;
  addr = 0;
  type = 3;
  available = true;
}

narrow-Fits : Pixels.Fits narrow
narrow-Fits = record { ready = refl; depth = inr (inr refl); row = omega arith; size = omega arith }

display_puts_line_lem_example :
    Pixels.pixel narrow (display_puts_line narrow (codes "1+1\n2") 4 2 0xFFFFFF black) 12 2 ≡ (
      if leb 4 12 && spans 2 16 2 && line_lit (take 2 (first_line (codes "1+1\n2"))) 8 0
      then Pixels.ink narrow 0xFFFFFF
      else Pixels.pixel narrow black 12 2)
display_puts_line_lem_example =
    display_puts_line_lem narrow narrow-Fits 0xFFFFFF 2 (omega arith) (omega arith) (codes "1+1\n2")
      4 black 12 2 (omega arith) (omega arith)

display_clear_lem_example :
    display_clear narrow 7 black ≡ display_fill_rect narrow 0 0 40 20 7 black
display_clear_lem_example =
    display_clear_lem narrow narrow-Fits refl refl (omega arith) (omega arith) 7 (omega arith) black

-- A machine on which every read gives 0.
abbrev silent : Machine ℕ
silent = record {
  outb = λ _ _ s. s + 1;
  inb = λ _ s. (0, s);
  outw = λ _ _ s. s + 1;
  inw = λ _ s. (0, s);
  outl = λ _ _ s. s + 1;
  inl = λ _ s. (0, s);
  poke = λ _ _ s. s + 1;
  peek = λ _ s. (0, s);
  poke32 = λ _ _ s. s + 1;
  peek32 = λ _ s. (0, s);
}

abbrev no_text : TextState
no_text = record { misc = 0; seq = []; crtc = []; gc = []; ac = [] }

display_init-Chosen_example :
    Chosen (display_init silent text_mode 0).0 (display_init silent text_mode 0).1
    × Chosen
        (display_enter_gfx silent false no_text text_mode 0).0
        (display_enter_gfx silent false no_text text_mode 0).1
display_init-Chosen_example = display_init-Chosen silent false no_text text_mode 0

-- The slash of src/kernel/font.h, with the highest bit leftmost, starts at the upper left.
slash_is_mirrored : (font_row 47 0 ≡ 0x60) × (font_row 47 6 ≡ 0x01)
unfolding font_row
slash_is_mirrored = (refl, refl)
