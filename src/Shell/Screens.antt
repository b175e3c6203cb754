-- ===== src/Shell/Screens.antt =====
-- The screens that src/kernel/kernel.c draws in graphics mode.
use openkernel.Base.{
  ℕ, zero, suc, ◌+◌, ◌-◌, ◌&&◌, List, [], ◌∷◌, ◌++◌, ltb, leb, ◌==◌, if◌then◌else◌, take, length,
  Text, codes,
}
use openkernel.Fs.Listing.{until_nul}
use openkernel.Graphics.Bytes.{Bytes}
use openkernel.Graphics.Display.{
  Mode, display_rgb, display_clear, display_fill_rect, display_draw_rect, display_puts,
  display_puts_line,
}
use openkernel.Shell.Input.{Input}
use openkernel.Shell.Log.{GfxLog, shown_lines}
use openkernel.Shell.State.{Shell}

abbrev gfx_console_bg : ℕ
gfx_console_bg = display_rgb 0 0 0x40

abbrev white : ℕ
white = display_rgb 0xFF 0xFF 0xFF

-- The loop of `build_pseudo_prompt` from the character `i` on: the prompt as it stands, and at
-- each character first the cursor if it is there.
unfoldable pub prompt_loop : ℕ → ℕ → Input → ℕ → Text → Text
prompt_loop zero i b max_len prompt = prompt
prompt_loop (suc k) i b max_len prompt =
    let marked = if i == b.cmd_cursor then prompt ++ codes "_" else prompt in
    let longer = marked ++ b.cmd i ∷ [] in
    prompt_loop k (i + 1) b max_len (if ltb (length prompt) (max_len - 1) then longer else prompt)

unfoldable pub build_pseudo_prompt : Input → ℕ → Text
build_pseudo_prompt b max_len =
    let prompt = prompt_loop b.cmd_len 0 b max_len (take (max_len - 1) (codes "> ")) in
    if leb b.cmd_len b.cmd_cursor && ltb (length prompt) (max_len - 1)
    then prompt ++ codes "_"
    else prompt

-- The prompt is the C string in an array of 80 bytes.
unfoldable pub render_pseudo_text_prompt : Input → Mode → Bytes → Bytes
render_pseudo_text_prompt b d m =
    display_puts_line d (until_nul (build_pseudo_prompt b 80)) 20 560 (display_rgb 0xFF 0xFF 0x80)
      (display_fill_rect d 0 558 d.width 24 gfx_console_bg m)

-- The lines of the log from `y` on, 20 rows apart.
unfoldable pub draw_lines : Mode → List Text → ℕ → Bytes → Bytes
draw_lines d [] y m = m
draw_lines d (l ∷ ls) y m = draw_lines d ls (y + 20) (display_puts_line d l 20 y white m)

unfoldable pub render_pseudo_text_screen : GfxLog → Input → Mode → Bytes → Bytes
render_pseudo_text_screen log b d m =
    let cleared = display_clear d gfx_console_bg m in
    let title = display_puts d (codes "openkernel Command Line") 20 20 white cleared in
    let hint =
      display_puts d (codes "Type 'help' for available commands.") 20 40
        (display_rgb 0xA0 0xA0 0xA0) title in
    render_pseudo_text_prompt b d (draw_lines d (shown_lines log) 64 hint)

-- The five squares of a row of the test screen, by the function that draws one.
abbrev squares : (ℕ → ℕ → Bytes → Bytes) → List ℕ → ℕ → Bytes → Bytes
squares draw [] x m = m
squares draw (c ∷ cs) x m = squares draw cs (x + 120) (draw x c m)

unfoldable pub render_graphics_test_screen : Mode → Bytes → Bytes
render_graphics_test_screen d m =
    let colors =
      display_rgb 0xFF 0 0
      ∷ display_rgb 0 0xFF 0
      ∷ display_rgb 0 0 0xFF
      ∷ display_rgb 0xFF 0xFF 0
      ∷ display_rgb 0xFF 0 0xFF
      ∷ [] in
    let text = codes "TEST TEXT! TEST TEXT! TEST TEXT!" in
    let m1 = display_clear d (display_rgb 0 0 0x40) m in
    let m2 = squares (λ x c. display_fill_rect d x 30 100 100 c) colors 30 m1 in
    let m3 =
      squares (λ x c. display_draw_rect d x 160 100 100 c)
        (white ∷ white ∷ white ∷ white ∷ white ∷ []) 30 m2 in
    let m4 = display_puts d text 30 320 white m3 in
    let m5 = display_puts d text 30 340 (display_rgb 0xB0 0xB0 0xB0) m4 in
    display_puts d text 30 360 (display_rgb 0x80 0xFF 0x80) m5

module _ {S : Type 0} where
  unfoldable pub draw_prompt : Shell S → Shell S
  draw_prompt s = record s { pixels = render_pseudo_text_prompt s.pseudo_cmd s.mode s.pixels }

  unfoldable pub draw_console : Shell S → Shell S
  draw_console s = record s {
    pixels = render_pseudo_text_screen s.gfx s.pseudo_cmd s.mode s.pixels;
  }

  unfoldable pub draw_test : Shell S → Shell S
  draw_test s = record s { pixels = render_graphics_test_screen s.mode s.pixels }
