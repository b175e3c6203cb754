-- ===== src/Shell/Loop.antt =====
-- The loop of `kernel_main` in src/kernel/kernel.c: what a key does, and what the requests do that
-- the keyboard's interrupts leave. A scancode of which the conversion reads past its table faults.
pub mod Kept
pub mod Valid
pub mod Keys
pub mod Requests
pub mod Runs
pub mod Wrap
use openkernel.Base.{
  ℕ, zero, suc, ◌+◌, ◌-◌, Bool, true, false, ◌&&◌, ◌||◌, not, Option, none, some, List, [], ◌∷◌,
  ltb, leb, ◌==◌, if◌then◌else◌, update, Text, codes,
}
use openkernel.Keyboard.{Keyboard}
use openkernel.Keyboard.Events.{
  keyboard_irq_handler, keyboard_get_scancode, keyboard_scancode_to_ascii,
}
use openkernel.Fs.Shell.{starts_with}
use openkernel.Fs.Editor.{fs_edit_is_active, fs_edit_display_content}
use openkernel.Console.{vga_cols, vga_scroll}
use openkernel.Graphics.Ports.{Machine}
use openkernel.Shell.Input.{
  Input, insert_char, backspace, delete, arrow_left, arrow_right, clear_input,
}
use openkernel.Shell.Prompt.{
  vga_reserve_prompt_line, get_prompt_prefix_len, prompt_prefix, show_text_prompt,
}
use openkernel.Shell.State.{
  Shell, Outcome, running, halted, faulted, ◌▷◌, print, text_console_log, log_all,
}
use openkernel.Shell.Screens.{draw_prompt, draw_console, draw_test}
use openkernel.Shell.Commands.{
  text_of, take_pending, enter_gfx, execute_text_command, pseudo_console_execute,
}

abbrev pub cmd_buffer_size : ℕ
cmd_buffer_size = 128

abbrev pub pseudo_cmd_size : ℕ
pseudo_cmd_size = 64

-- A space at an index below `k`, the last one.
unfoldable pub last_space : ℕ → (ℕ → ℕ) → Option ℕ
last_space zero cmd = none
last_space (suc k) cmd = let rest = last_space k cmd in if cmd k == b' ' then some k else rest

-- Where a line of the editor is broken that has no room for `avail` characters.
unfoldable pub break_at : ℕ → (ℕ → ℕ) → ℕ
break_at avail cmd = elim (last_space avail cmd) [
  | none ↦ avail - 1
  | some k ↦ if k == 0 then avail - 1 else k
]

-- What follows the break goes to the front, and the character after it. The copy goes forward, from
-- indexes further on.
unfoldable pub carry_over : ℕ → ℕ → Input → Input
carry_over break_pos ch b =
    let saved_len = b.cmd_len - break_pos - 1 in
    let copied = if ltb saved_len (cmd_buffer_size - 2) then saved_len else cmd_buffer_size - 2 in
    let moved = λ (i : ℕ). if ltb i copied then b.cmd (break_pos + 1 + i) else b.cmd i in
    record {
      cmd = update (update moved saved_len ch) (saved_len + 1) 0;
      cmd_len = saved_len + 1;
      cmd_cursor = saved_len + 1;
    }

-- The command up to the break.
unfoldable pub cut_at : ℕ → Input → Input
cut_at break_pos b = record b { cmd = update b.cmd break_pos 0 }

abbrev pub before_cursor : Input → Bool
before_cursor b = ltb 0 b.cmd_cursor

abbrev pub after_cursor : Input → Bool
after_cursor b = ltb b.cmd_cursor b.cmd_len

module _ {S : Type 0} (io : Machine S) where
  unfoldable pub show_prompt : Shell S → Shell S
  show_prompt s = record s {
    terminal =
        show_text_prompt s.editor (text_of cmd_buffer_size s.cmd) s.cmd.cmd_cursor s.terminal;
  }

  -- The command is empty, and a line is kept for the prompt.
  unfoldable pub next_prompt : Shell S → Shell S
  next_prompt s =
      show_prompt
        (record s { cmd = clear_input s.cmd; terminal = vga_reserve_prompt_line s.terminal })

  -- After a command: a line that was fetched is the next one, and a file that is opened is shown.
  unfoldable pub after_command : Bool → Shell S → Shell S
  after_command was_edit s =
      let (pending, s') = take_pending io cmd_buffer_size s.cmd s in
      elim pending [
        | some filled ↦ show_prompt (record s' { cmd = filled })
        | none ↦
            (if was_edit && fs_edit_is_active s'.editor
              then log_all text_console_log (fs_edit_display_content s'.editor) s'
              else s')
            ▷ next_prompt
      ]

  -- The command, with its NUL, is executed.
  unfoldable pub submit : Input → Shell S → Shell S
  submit b s =
      let command = text_of cmd_buffer_size b in
      let asked = record s { cmd = b } in
      if ltb 0 b.cmd_len
      then execute_text_command io command asked
        ▷ after_command (starts_with command (codes "edit "))
      else next_prompt asked

  -- Enter in text mode
  unfoldable pub text_enter : Shell S → Shell S
  text_enter s =
      let b = record s.cmd { cmd = update s.cmd.cmd s.cmd.cmd_len 0 } in
      print (codes "\n") [] s ▷ submit b

  unfoldable pub carry : ℕ → ℕ → Shell S → Shell S
  carry break_pos ch s = show_prompt (record s { cmd = carry_over break_pos ch s.cmd })

  -- A line of the editor that is full is broken, its first part is executed, and the character is
  -- put after the rest.
  unfoldable pub wrap_line : ℕ → ℕ → Shell S → Shell S
  wrap_line avail ch s =
      let break_pos = break_at avail s.cmd.cmd in
      let b = cut_at break_pos s.cmd in
      print (codes "\n") [] (record s { cmd = b })
      ▷ execute_text_command io (text_of cmd_buffer_size b)
      ▷ carry break_pos ch

  -- A character from 32 to 126 in text mode
  unfoldable pub text_char : ℕ → Shell S → Shell S
  text_char ch s =
      let left = vga_cols - get_prompt_prefix_len s.editor in
      let avail = if left == 0 then 1 else left in
      let len = s.cmd.cmd_len in
      if fs_edit_is_active s.editor && leb avail len && ltb len (cmd_buffer_size - 1)
      then wrap_line avail ch s
      else (if ltb len (cmd_buffer_size - 1)
          then show_prompt (record s { cmd = insert_char cmd_buffer_size ch s.cmd })
          else s)

  abbrev printable : ℕ → Bool
  printable ch = leb 32 ch && leb ch 126

  unfoldable pub text_key : ℕ → ℕ → Shell S → Shell S
  text_key sc ch s =
      if sc == 0x1C
      then text_enter s
      else (if sc == 0x0E
          then show_prompt (record s { cmd = backspace s.cmd })
          else (if printable ch then text_char ch s else s))

  -- Enter in the graphics console; the cursor goes to the start.
  unfoldable pub pseudo_entered : Bool → Shell S → Shell S
  pseudo_entered had_input s =
      let s' = record s { pseudo_cmd = record s.pseudo_cmd { cmd_cursor = 0 } } in
      if had_input then draw_console s' else draw_prompt s'

  unfoldable pub pseudo_enter : Shell S → Shell S
  pseudo_enter s = pseudo_console_execute io s ▷ pseudo_entered (ltb 0 s.pseudo_cmd.cmd_len)

  unfoldable pub pseudo_key : ℕ → ℕ → Shell S → Shell S
  pseudo_key sc ch s =
      let b = s.pseudo_cmd in
      if sc == 0x1C
      then pseudo_enter s
      else (if sc == 0x0E
          then (if ltb 0 b.cmd_cursor
              then draw_prompt (record s { pseudo_cmd = backspace b })
              else s)
          else (if printable ch && ltb b.cmd_len (pseudo_cmd_size - 1)
              then draw_prompt (record s { pseudo_cmd = insert_char pseudo_cmd_size ch b })
              else s))

  -- A key on the test screen; the command is edited unseen.
  unfoldable pub test_key : ℕ → ℕ → Shell S → Shell S
  test_key sc ch s =
      let b = s.pseudo_cmd in
      if sc == 0x1C
      then draw_console (record s { pseudo_text_mode_active = true; pseudo_cmd = clear_input b })
      else (if sc == 0x0E
          then record s { pseudo_cmd = backspace b }
          else (if printable ch
              then record s { pseudo_cmd = insert_char pseudo_cmd_size ch b }
              else s))

  unfoldable pub handle_key : ℕ → ℕ → Shell S → Shell S
  handle_key sc ch s =
      if s.graphics_mode_active
      then (if s.pseudo_text_mode_active then pseudo_key sc ch s else test_key sc ch s)
      else text_key sc ch s

  -- A round of the loop over the keys that wait.
  unfoldable pub take_key : Shell S → Shell S
  take_key s =
      let (sc, kb) = keyboard_get_scancode s.keyboard in
      let s' = record s { keyboard = kb } in
      if sc == 0 then s' else elim (keyboard_scancode_to_ascii sc kb) [
        | none ↦ record s' { outcome = faulted }
        | some ch ↦ handle_key sc ch s'
      ]

  -- Ctrl+T
  unfoldable pub take_toggle : Shell S → Shell S
  take_toggle s =
      let s' = record s { keyboard = record s.keyboard { graphics_toggle_requested = false } } in
      let (entered, shown) = enter_gfx io s' in
      if s.keyboard.graphics_toggle_requested
      then (if s.graphics_mode_active
          then (if s.pseudo_text_mode_active
              then draw_test (record s' { pseudo_text_mode_active = false })
              else draw_console (record s' { pseudo_text_mode_active = true }))
          else shown)
      else s

  -- An edit of the command that is in use: of `cmd` in text mode, of `pseudo_cmd` in the graphics
  -- console, where it can be done.
  unfoldable pub edit_with : (Input → Bool) → (Input → Input) → Shell S → Shell S
  edit_with can change s =
      if s.graphics_mode_active
      then (if s.pseudo_text_mode_active && can s.pseudo_cmd
          then draw_prompt (record s { pseudo_cmd = change s.pseudo_cmd })
          else s)
      else (if can s.cmd then show_prompt (record s { cmd = change s.cmd }) else s)

  unfoldable pub scroll : Bool → Shell S → Shell S
  scroll up s =
      if s.graphics_mode_active then s else record s { terminal = vga_scroll up 1 s.terminal }

  -- A request of the keyboard is cleared and done.
  unfoldable pub take_up : Shell S → Shell S
  take_up s =
      if s.keyboard.arrow_up_requested
      then scroll true (record s { keyboard = record s.keyboard { arrow_up_requested = false } })
      else s

  unfoldable pub take_down : Shell S → Shell S
  take_down s =
      if s.keyboard.arrow_down_requested
      then scroll false (record s { keyboard = record s.keyboard { arrow_down_requested = false } })
      else s

  unfoldable pub take_left : Shell S → Shell S
  take_left s =
      if s.keyboard.arrow_left_requested
      then edit_with before_cursor arrow_left
          (record s { keyboard = record s.keyboard { arrow_left_requested = false } })
      else s

  unfoldable pub take_right : Shell S → Shell S
  take_right s =
      if s.keyboard.arrow_right_requested
      then edit_with after_cursor arrow_right
          (record s { keyboard = record s.keyboard { arrow_right_requested = false } })
      else s

  unfoldable pub take_delete : Shell S → Shell S
  take_delete s =
      if s.keyboard.delete_requested
      then edit_with after_cursor delete
          (record s { keyboard = record s.keyboard { delete_requested = false } })
      else s

  -- The requests after the keys, in their order.
  unfoldable pub take_requests : Shell S → Shell S
  take_requests s = take_delete (take_right (take_left (take_down (take_up s))))
