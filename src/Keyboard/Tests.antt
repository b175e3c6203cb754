-- ===== src/Keyboard/Tests.antt =====
-- The keyboard driver at concrete inputs, and its theorems there.
use openkernel.Base.{
  ℕ, List, ◌==◌, ◌&&◌, if◌then◌else◌, ◌≤◌, ◌<◌, ◌≡◌, ◌↔◌, refl, true, false, none, some, [], ◌∷◌,
  ◌++◌, arith, Text, codes,
}
use openkernel.Base.Bits.{bit}
use openkernel.Keyboard.{Keyboard, layout_it, layout_fr}
use openkernel.Keyboard.Layouts.{keyboard_detect_layout, layout_text, kstrcmp_prefix}
use openkernel.Keyboard.Events.{
  keyboard_irq_handler, keyboard_scancode_to_ascii, track_modifiers, plain_key, extended_key,
  buffer_key, choose_case,
}
use openkernel.Keyboard.Tables.{lower_table, upper_table}
use openkernel.Keyboard.Ring.{pending, IsRing, Received, is_key, keyboard_irq_handler-Received}
use openkernel.Keyboard.Keys.{
  track_modifiers_lem, bit_after, modifier_of, keyboard_scancode_to_ascii-none,
}
use openkernel.Interrupts.{Interrupts}
use openkernel.Keyboard.Startup.{
  configure, enable_scanning, keyboard_init, drain, wait_while, wait_input, wait_output,
  updated_ccb, read_answer,
}
use openkernel.Keyboard.Startup.Ready.{sent, received, traced_inb, traced_outb}
use openkernel.Keyboard.Boot.{argument, Unmatched, keyboard_detect_layout_lem}

abbrev booted : Keyboard
booted = record {
  key_buffer = λ _. 0;
  keybuf_head = 0;
  keybuf_tail = 0;
  modifiers = 0;
  extended_mode = false;
  keyboard_debug_counter = 0;
  t_key_pressed = false;
  graphics_toggle_requested = false;
  arrow_left_requested = false;
  arrow_right_requested = false;
  arrow_up_requested = false;
  arrow_down_requested = false;
  delete_requested = false;
  current_layout = layout_it;
}

-- Shift goes down, then A: the ring holds both scancodes, and A is a capital.
abbrev typed : Keyboard
unfolding keyboard_irq_handler plain_key extended_key buffer_key track_modifiers
typed = keyboard_irq_handler 0x1E (keyboard_irq_handler 0x2A booted)

typed_keys : pending typed ≡ 0x2A ∷ 0x1E ∷ []
unfolding typed pending
typed_keys = refl

typed_a : keyboard_scancode_to_ascii 0x1E typed ≡ some b'A'
unfolding typed keyboard_scancode_to_ascii lower_table upper_table choose_case
typed_a = refl

arrow : (keyboard_irq_handler 0x48 (keyboard_irq_handler 0xE0 booted)).arrow_up_requested ≡ true
unfolding keyboard_irq_handler plain_key extended_key buffer_key track_modifiers
arrow = refl

booted-IsRing : IsRing booted
booted-IsRing = record { head = omega arith; tail = omega arith }

keyboard_irq_handler-Received_example :
    Received 0x1E booted
      (is_key 0x1E (record booted { modifiers = track_modifiers 0x1E 0 }))
      (keyboard_irq_handler 0x1E booted)
keyboard_irq_handler-Received_example = keyboard_irq_handler-Received 0x1E booted booted-IsRing

abbrev holding : Keyboard
holding = record booted { key_buffer = λ _. 0x10; keybuf_head = 2; keybuf_tail = 62 }

track_modifiers_lem_example :
    bit 4 (track_modifiers 0xB6 0x18) ≡ bit_after (modifier_of 0xB6) 4 (bit 4 0x18)
track_modifiers_lem_example = track_modifiers_lem 0xB6 0x18 4 (omega arith) (omega arith)

keyboard_scancode_to_ascii-none_example :
    keyboard_scancode_to_ascii 0x3C booted ≡ none ↔ (60 ≤ 0x3C) × (0x3C < 0x59)
keyboard_scancode_to_ascii-none_example = keyboard_scancode_to_ascii-none 0x3C booted (omega arith)

abbrev french_line : Text
french_line = codes "quiet lang " ++ (codes "layout=" ++ argument layout_fr ++ codes " x")

french_Unmatched :
    Unmatched (codes "quiet lang ") (codes "layout=" ++ argument layout_fr ++ codes " x")
unfolding kstrcmp_prefix layout_text
french_Unmatched =
    (refl, (refl, (refl, (refl, (refl, (refl, (refl, (refl, (refl, (refl, (refl, tt)))))))))))

keyboard_detect_layout_lem_example :
    (keyboard_detect_layout (some french_line) booted).current_layout ≡ layout_fr
keyboard_detect_layout_lem_example =
    keyboard_detect_layout_lem (codes "quiet lang ") layout_fr (codes " x") booted french_Unmatched

-- A controller that answers at once: the bytes that wait in it are its state. It has the command
-- byte 0x20, and the keyboard acknowledges the command to scan.
abbrev poll : ℕ → List ℕ → ℕ × List ℕ
poll port [] = (0, [])
poll port (b ∷ bs) = if port == 0x60 then (b, bs) else (1, b ∷ bs)

abbrev send : ℕ → ℕ → List ℕ → List ℕ
send port data_byte bs =
    if (port == 0x64) && (data_byte == 0x20)
    then bs ++ (0x20 ∷ [])
    else if (port == 0x60) && (data_byte == 0xF4)
    then bs ++ (0xFA ∷ [])
    else bs

abbrev no_handlers : Interrupts
no_handlers = record {
  entries = λ _. record { base_low = 0; selector = 0; always0 = 0; flags = 0; base_high = 0 };
  limit = 0;
  base = 0;
  irq_handlers = λ _. 0;
}

-- Two bytes that wait are dropped, 0x61 is written, and the keyboard answers in time.
transferred :
    (keyboard_init
      (traced_inb poll send)
      (traced_outb poll send)
      0x5000
      no_handlers
      holding
      (1 ∷ 2 ∷ [], [])).0.1
    ≡ received 1
      ∷ received 2
      ∷ sent 0x64 0xAE
      ∷ sent 0x64 0x20
      ∷ received 0x20
      ∷ sent 0x64 0x60
      ∷ sent 0x60 0x61
      ∷ sent 0x60 0xF4
      ∷ received 0xFA
      ∷ []
unfolding keyboard_init configure enable_scanning drain wait_while wait_input wait_output
    updated_ccb read_answer
transferred = refl
