-- ===== src/Keyboard.antt =====
-- The state of the PS/2 keyboard driver, src/kernel/keyboard.c.
pub mod Tables
pub mod Layouts
pub mod Events
pub mod Ring
pub mod Keys
pub mod Boot
pub mod Startup
mod Tests
use openkernel.Base.{ℕ, Bool}

-- `layout_t`
pub data Layout : Type 0 where
  layout_us layout_uk layout_it layout_fr layout_de layout_es layout_pt : Layout
  layout_no layout_dk layout_se layout_fi layout_nl layout_be layout_pl : Layout
  layout_cz layout_sk layout_hu layout_ro layout_tr : Layout

abbrev pub keybuf_size : ℕ
keybuf_size = 64

abbrev pub keyboard_caps_lock : ℕ
keyboard_caps_lock = 0x01

abbrev pub keyboard_lshift : ℕ
keyboard_lshift = 0x08

abbrev pub keyboard_rshift : ℕ
keyboard_rshift = 0x10

abbrev pub keyboard_lalt : ℕ
keyboard_lalt = 0x20

abbrev pub keyboard_lctrl : ℕ
keyboard_lctrl = 0x40

abbrev pub keyboard_rctrl : ℕ
keyboard_rctrl = 0x80

-- The variables of the driver; a flag that holds 0 or 1 is a Bool. `t_key_pressed` is the static
-- of the interrupt handler, and the requests are flags that the main loop clears.
pub record Keyboard : Type 0 where
  pub key_buffer : ℕ → ℕ
  pub keybuf_head : ℕ
  pub keybuf_tail : ℕ
  pub modifiers : ℕ
  pub extended_mode : Bool
  pub keyboard_debug_counter : ℕ
  pub t_key_pressed : Bool
  pub graphics_toggle_requested : Bool
  pub arrow_left_requested : Bool
  pub arrow_right_requested : Bool
  pub arrow_up_requested : Bool
  pub arrow_down_requested : Bool
  pub delete_requested : Bool
  pub current_layout : Layout
