-- ===== src/Shell/Tests.antt =====
-- The shell at concrete inputs.
use openkernel.Base.{
  ℕ, ◌-◌, ◌≡◌, refl, true, false, none, some, [], ◌∷◌, ◌++◌, map, take, update, Text, codes, arith,
}
use openkernel.Fs.{Fs}
use openkernel.Fs.Commands.{unused_node}
use openkernel.Fs.Editor.{Editor}
use openkernel.Keyboard.{Keyboard, layout_us}
use openkernel.Keyboard.Events.{keyboard_irq_handler}
use openkernel.Graphics.Ports.{Machine}
use openkernel.Graphics.Backends.{text_mode}
use openkernel.Shell.Input.{Input, typed, press}
use openkernel.Shell.Input.Slices.{slice}
use openkernel.Shell.Input.Laws.{IsValid, Edited, press_lem}
use openkernel.Shell.Log.{GfxLog, gfx_log_lines, gfx_log_cols, clear_gfx_log, shown_lines}
use openkernel.Shell.Log.Last.{append_all, last, shown_lines-append_all}
use openkernel.Shell.Statements.{BootInfo, print_statement, bootinfo_lines}
use openkernel.Shell.Statements.Roundtrip.{spaces, print_statement_lem}
use openkernel.Shell.State.{Shell, running}
use openkernel.Shell.Loop.{cut_at, carry_over, break_at, last_space, take_key}
use openkernel.Shell.Loop.Valid.{BuffersValid}
use openkernel.Shell.Loop.Runs.{started, next, key, interrupt, Runs-BuffersValid}
use openkernel.Shell.Loop.Wrap.{carry_over_loses}

-- `ab` with the cursor after the `a`
abbrev ab : Input
ab = record { cmd = update (update (λ _. 0) 0 b'a') 1 b'b'; cmd_len = 2; cmd_cursor = 1 }

press_lem_example :
    IsValid 128 (press 128 (typed b'x') ab) × Edited 128 (typed b'x') ab (press 128 (typed b'x') ab)
press_lem_example =
    press_lem 128 ab (record { cursor = omega arith; room = omega arith; ended = refl })
      (typed b'x')

abbrev no_log : GfxLog
no_log = record { gfx_log = λ _. []; gfx_log_count = 0 }

shown_lines-append_all_example :
    (l : GfxLog) × (append_all (codes "one" ∷ codes "two" ∷ []) (clear_gfx_log no_log) ≡ some l)
    × (shown_lines l
        ≡ last gfx_log_lines (map (take (gfx_log_cols - 1)) (codes "one" ∷ codes "two" ∷ [])))
shown_lines-append_all_example =
    shown_lines-append_all (codes "one" ∷ codes "two" ∷ []) no_log (omega arith)

print_statement_lem_example : print_statement (codes "( \"hi\" ) there") ≡ codes "hi"
unfolding spaces
print_statement_lem_example =
    print_statement_lem 0 1 1 b'h' (b'i' ∷ []) (codes " there") (omega arith) (omega arith)

carry_over_loses_example :
    (slice (cut_at (break_at 2 ab.cmd) ab).cmd 0 2 ≡ codes "a" ++ 0 ∷ [])
    × (slice (carry_over (break_at 2 ab.cmd) b'x' (cut_at (break_at 2 ab.cmd) ab)).cmd 0 1
        ≡ codes "x")
unfolding last_space slice
carry_over_loses_example = carry_over_loses 2 b'x' ab (omega arith) (omega arith) (omega arith) refl

abbrev nothing : Input
nothing = record { cmd = λ _. 0; cmd_len = 0; cmd_cursor = 0 }

abbrev no_editor : Editor
no_editor = record {
  active = false;
  path = [];
  buf = 0;
  bytes = [];
  cap = 0;
  pending_line = [];
  pending_line_valid = false;
  target_line = 0;
}

abbrev empty_fs : Fs
empty_fs = record {
  nodes = update (λ _. unused_node) 0 (record unused_node { used = true });
  cwd = 0;
  cwd_path = codes "/";
  heap = record {
    block_at = λ _. record { next = 0; size = 0; free = false };
    heap_start = 0;
    heap_end = 0;
  };
}

abbrev idle_keyboard : Keyboard
idle_keyboard = record {
  key_buffer = λ _. 0;
  keybuf_head = 0;
  keybuf_tail = 0;
  modifiers = 0;
  extended_mode = false;
  keyboard_debug_counter = 0;
  t_key_pressed = false;
  graphics_toggle_requested = false;
  arrow_left_requested = false;
  arrow_right_requested = false;
  arrow_up_requested = false;
  arrow_down_requested = false;
  delete_requested = false;
  current_layout = layout_us;
}

abbrev long_name : Text
long_name = codes "a boot loader whose name is as long as the code keeps it: 63 ch"

abbrev qemu : BootInfo
qemu = record {
  saved_magic = 0x2BADB002;
  saved_flags = 0x4F;
  saved_mem_lower = 639;
  saved_mem_upper = 130048;
  saved_boot_loader = some (codes "qemu");
}

-- A name of 63 characters is saved whole, and its line needs 72 bytes of 64.
name_overflows : bootinfo_lines (record qemu { saved_boot_loader = some long_name }) ≡ none
unfolding bootinfo_lines
name_overflows = refl

-- A machine on which every read gives 0.
abbrev quiet : Machine ℕ
quiet = record {
  outb = λ _ _ s. s;
  inb = λ _ s. (0, s);
  outw = λ _ _ s. s;
  inw = λ _ s. (0, s);
  outl = λ _ _ s. s;
  inl = λ _ s. (0, s);
  poke = λ _ _ s. s;
  peek = λ _ s. (0, s);
  poke32 = λ _ _ s. s;
  peek32 = λ _ s. (0, s);
}

abbrev start : Shell ℕ
start = record {
  terminal = record {
    history = λ _ _. 0;
    total_lines = 1;
    view_offset = 0;
    cursor_row = 0;
    cursor_col = 0;
    screen = λ _ _. 0;
    hardware_cursor = 0;
  };
  gfx = no_log;
  cmd = nothing;
  pseudo_cmd = nothing;
  graphics_mode_active = false;
  pseudo_text_mode_active = false;
  editor = no_editor;
  fs = empty_fs;
  keyboard = idle_keyboard;
  boot = qemu;
  mode = text_mode;
  pixels = λ _. 0;
  vga_text_state_saved = false;
  saved_text_state = record { misc = 0; seq = []; crtc = []; gc = []; ac = [] };
  machine = 0;
  outcome = running;
}

-- The `l` key is pressed, and the loop takes it.
abbrev pressed : Shell ℕ
pressed = record start { keyboard = keyboard_irq_handler 0x26 start.keyboard }

Runs-BuffersValid_example : BuffersValid (take_key quiet pressed)
Runs-BuffersValid_example =
    Runs-BuffersValid quiet {s = start}
      (next (next started (interrupt start 0x26)) (key pressed refl))
      (record {
        text = record { cursor = omega arith; room = omega arith; ended = refl };
        pseudo = record { cursor = omega arith; room = omega arith; ended = refl };
      })
