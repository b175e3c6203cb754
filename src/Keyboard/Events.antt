-- ===== src/Keyboard/Events.antt =====
-- The interrupt handler of src/kernel/keyboard.c, and what reads the keys.
use openkernel.Base.{
  ℕ, ◌+◌, ◌%◌, Bool, true, false, ◌&&◌, ◌||◌, not, Option, none, some, ltb, leb, ◌==◌,
  if◌then◌else◌, get_elem?, update,
}
use Prim.Native.Nat.{bit_and, bit_or, bit_xor}
use openkernel.Keyboard.{
  Keyboard, keybuf_size, keyboard_caps_lock, keyboard_lshift, keyboard_rshift, keyboard_lalt,
  keyboard_lctrl, keyboard_rctrl,
}
use openkernel.Keyboard.Tables.{lower_table, upper_table}

-- `a & b` as a condition
abbrev pub any_bit : ℕ → ℕ → Bool
any_bit a b = not (bit_and a b == 0)

-- `modifiers &= ~mask`, on eight bits
abbrev pub clear_bits : ℕ → ℕ → ℕ
clear_bits a mask = bit_and a (bit_xor 0xff mask)

-- 1. the `switch` that tracks the modifier keys
unfoldable pub track_modifiers : ℕ → ℕ → ℕ
track_modifiers scancode m =
    if scancode == 0x2A
    then bit_or m keyboard_lshift
    else if scancode == 0xAA
    then clear_bits m keyboard_lshift
    else if scancode == 0x36
    then bit_or m keyboard_rshift
    else if scancode == 0xB6
    then clear_bits m keyboard_rshift
    else if scancode == 0x38
    then bit_or m keyboard_lalt
    else if scancode == 0xB8
    then clear_bits m keyboard_lalt
    else if scancode == 0x1D
    then bit_or m keyboard_lctrl
    else if scancode == 0x9D
    then clear_bits m keyboard_lctrl
    else if scancode == 0x3A
    then bit_xor m keyboard_caps_lock
    else m

-- 2. the extended scancodes
unfoldable pub extended_key : ℕ → Keyboard → Keyboard
extended_key scancode kb =
    if scancode == 0x48
    then record kb { arrow_up_requested = true }
    else if scancode == 0x50
    then record kb { arrow_down_requested = true }
    else if scancode == 0x4B
    then record kb { arrow_left_requested = true }
    else if scancode == 0x4D
    then record kb { arrow_right_requested = true }
    else if scancode == 0x53
    then record kb { delete_requested = true }
    else kb

-- 4. the key goes to the ring, unless it is full or the key is released
unfoldable pub buffer_key : ℕ → Keyboard → Keyboard
buffer_key scancode kb =
    let next = (kb.keybuf_head + 1) % keybuf_size in
    if any_bit scancode 0x80
    then kb
    else if next == kb.keybuf_tail
    then kb
    else record kb { key_buffer = update kb.key_buffer kb.keybuf_head scancode; keybuf_head = next }

-- 3. Ctrl+T, then the rest
unfoldable pub plain_key : ℕ → Keyboard → Keyboard
plain_key scancode kb =
    if scancode == 0x14
    then (if not kb.t_key_pressed && any_bit kb.modifiers (bit_or keyboard_lctrl keyboard_rctrl)
        then record kb { graphics_toggle_requested = true; t_key_pressed = true }
        else buffer_key scancode kb)
    else if scancode == 0x94
    then record kb { t_key_pressed = false }
    else buffer_key scancode kb

-- `scancode` is the byte that the port delivers.
unfoldable pub keyboard_irq_handler : ℕ → Keyboard → Keyboard
keyboard_irq_handler scancode kb =
    let counted = record kb { keyboard_debug_counter = kb.keyboard_debug_counter + 1 } in
    let tracked = record counted { modifiers = track_modifiers scancode kb.modifiers } in
    if scancode == 0xE0
    then record counted { extended_mode = true }
    else if kb.extended_mode
    then extended_key scancode (record tracked { extended_mode = false })
    else plain_key scancode tracked

unfoldable pub keyboard_get_modifiers : Keyboard → ℕ
keyboard_get_modifiers kb = kb.modifiers

-- 0 if no key waits
unfoldable pub keyboard_get_scancode : Keyboard → ℕ × Keyboard
keyboard_get_scancode kb =
    if not (kb.keybuf_tail == kb.keybuf_head)
    then (
      kb.key_buffer kb.keybuf_tail,
      record kb { keybuf_tail = (kb.keybuf_tail + 1) % keybuf_size },
    )
    else (0, kb)

-- The character for `lower_ptr[scancode]` and `upper_ptr[scancode]`.
unfoldable pub choose_case : ℕ → ℕ → ℕ → ℕ
choose_case m c upper =
    let shifted = any_bit m (bit_or keyboard_lshift keyboard_rshift) in
    let caps = any_bit m keyboard_caps_lock in
    if c == 0
    then 0
    else if shifted || caps
    then (if not (upper == 0) && (shifted || (caps && leb b'a' c && leb c b'z')) then upper else c)
    else c

-- `none` is a read past the end of a table.
unfoldable pub keyboard_scancode_to_ascii : ℕ → Keyboard → Option ℕ
keyboard_scancode_to_ascii scancode kb =
    if any_bit scancode 0x80
    then some 0
    else if ltb scancode 0x59
    then elim (get_elem? (lower_table kb.current_layout) scancode) [
      | none ↦ none
      | some c ↦ elim (get_elem? (upper_table kb.current_layout) scancode) [
        | none ↦ none
        | some upper ↦ some (choose_case kb.modifiers c upper)
      ]
    ]
    else some 0
