-- ===== src/Console/Tests.antt =====
-- The console and `printk` at concrete inputs.
use openkernel.Base.{◌≡◌, refl, true, some, none, [], ◌∷◌, codes}
use openkernel.Fs.Listing.{digits, backwards}
use openkernel.Console.{Terminal, vga_clear, vga_scroll, puts}
use openkernel.Console.Bounds.{IsInside, cleared, written, scrolled, Shown-IsInside}
use openkernel.Console.Format.{
  int, str, formatted, format_loop, put_conversion, put_decimal, hex_loop,
}

abbrev off : Terminal
off = record {
  history = λ _ _. 0;
  total_lines = 0;
  view_offset = 0;
  cursor_row = 0;
  cursor_col = 0;
  screen = λ _ _. 0;
  hardware_cursor = 0;
}

three_kinds :
    formatted (codes "%d %x%% %s") (int 4294967254 ∷ int 48879 ∷ str (codes "ok") ∷ [])
    ≡ some (codes "-42 0000beef% ok")
unfolding formatted format_loop put_conversion put_decimal hex_loop digits backwards
three_kinds = refl

-- `%u`, which src/kernel/memory.c uses, is printed as it stands.
no_unsigned : formatted (codes "index %u\n") (int 7 ∷ []) ≡ some (codes "index %u\n")
unfolding formatted format_loop put_conversion
no_unsigned = refl

percent_at_end : formatted (codes "100%") [] ≡ none
unfolding formatted format_loop put_conversion
percent_at_end = refl

Shown-IsInside_example :
    IsInside (vga_scroll true 3 (puts (codes "one\ntwo\nthree") (vga_clear off)))
Shown-IsInside_example =
    Shown-IsInside (scrolled true 3 (written (codes "one\ntwo\nthree") (cleared off)))
