-- ===== src/Shell/Commands.antt =====
-- The commands of the shell in src/kernel/kernel.c.
use openkernel.Base.{
  ℕ, ◌-◌, Bool, true, false, Option, none, some, [], ◌++◌, ltb, ◌==◌, if◌then◌else◌, take, drop,
  get_or, length, Text, codes, update,
}
use openkernel.Keyboard.Layouts.{keyboard_detect_layout}
use openkernel.Fs.Strings.{streq}
use openkernel.Fs.Listing.{until_nul}
use openkernel.Fs.Shell.{starts_with, fs_handle_command}
use openkernel.Fs.Editor.{fs_edit_is_active, fs_edit_handle_line, fs_edit_get_pending_line}
use openkernel.Console.{vga_clear}
use openkernel.Graphics.Ports.{Machine}
use openkernel.Graphics.Backends.{display_enter_gfx}
use openkernel.Shell.Input.{Input, clear_input}
use openkernel.Shell.Input.Slices.{slice}
use openkernel.Shell.Log.{clear_gfx_log}
use openkernel.Shell.Statements.{show_help_main, show_help_os, bootinfo_lines, print_statement}
use openkernel.Shell.State.{
  Shell, halted, faulted, ◌▷◌, print, text_console_log, pseudo_console_log, log_prompt, log_all,
}
use openkernel.Shell.Screens.{draw_console, draw_test}

-- The C string in a command buffer of `size` bytes.
abbrev pub text_of : ℕ → Input → Text
text_of size b = until_nul (slice b.cmd 0 size)

-- A line that the editor fetched becomes the command, cut to leave two bytes.
unfoldable pub prefill : ℕ → Text → Input → Input
prefill size pending b =
    let text = take (size - 2) pending in
    record {
      cmd = λ i.
          if ltb i (length text)
          then get_or text i 0
          else (if i == length text then 0 else b.cmd i);
      cmd_len = length text;
      cmd_cursor = length text;
    }

module _ {S : Type 0} (io : Machine S) where
  open io use {outb, outw}

  unfoldable pub reboot_system : Shell S → Shell S
  reboot_system s = record s { machine = outb 0x64 0xFE s.machine; outcome = halted }

  unfoldable pub shutdown_system : Shell S → Shell S
  shutdown_system s = record s {
    machine = outw 0x4004 0x3400 (outw 0x604 0x2000 (outw 0xB004 0x2000 s.machine));
    outcome = halted;
  }

  -- `display_enter_gfx`, and the test screen in the mode that it leaves; the answer is whether
  -- there is one.
  unfoldable pub enter_gfx : Shell S → Bool × Shell S
  enter_gfx s =
      let r = display_enter_gfx io s.vga_text_state_saved s.saved_text_state s.mode s.machine in
      let entered = record s {
        mode = r.1;
        vga_text_state_saved = true;
        saved_text_state = r.2;
        machine = r.3;
        graphics_mode_active = if r.0 then true else s.graphics_mode_active;
        pseudo_text_mode_active = if r.0 then false else s.pseudo_text_mode_active;
      } in
      (r.0, if r.0 then draw_test entered else entered)

  -- The screen of the graphics console, before a call that does not return.
  abbrev pub last_look : Bool → Shell S → Shell S
  last_look graphics_console s = if graphics_console then draw_console s else s

  unfoldable pub clear_command : Bool → Shell S → Shell S
  clear_command graphics_console s =
      if graphics_console
      then record s { gfx = clear_gfx_log s.gfx }
      else (record s { terminal = vga_clear s.terminal }
          ▷ print (codes "openkernel Command Line\n") []
          ▷ print (codes "Type 'help' for available commands.\n") [])

  unfoldable pub gfx_command : (Text → Shell S → Shell S) → Bool → Shell S → Shell S
  gfx_command log_fn graphics_console s =
      let (entered, s') = enter_gfx s in
      if graphics_console
      then draw_test (record s { pseudo_text_mode_active = false })
      else (if entered then s' else log_fn (codes "Failed to enter graphics mode") s')

  unfoldable pub layout_command : (Text → Shell S → Shell S) → Text → Shell S → Shell S
  layout_command log_fn code s =
      let param = codes "layout=" ++ take 8 code in
      log_fn (codes "Layout changed")
        (record s { keyboard = keyboard_detect_layout (some param) s.keyboard })

  unfoldable pub bootinfo_command : (Text → Shell S → Shell S) → Shell S → Shell S
  bootinfo_command log_fn s = elim (bootinfo_lines s.boot) [
    | none ↦ record s { outcome = faulted }
    | some lines ↦ log_all log_fn lines s
  ]

  unfoldable pub execute_console_command :
      Text → (Text → Shell S → Shell S) → Bool → Shell S → Shell S
  execute_console_command command log_fn graphics_console s =
      let is = streq command in
      if is (codes "help")
      then log_all log_fn show_help_main s
      else (if is (codes "help --os")
          then log_all log_fn show_help_os s
          else (if is (codes "clear")
              then clear_command graphics_console s
              else (if is (codes "reboot")
                  then log_fn (codes "Rebooting...") s ▷ last_look graphics_console ▷ reboot_system
                  else (if is (codes "shutdown")
                      then log_fn (codes "Shutting down...") s
                        ▷ last_look graphics_console
                        ▷ shutdown_system
                      else (if is (codes "gfx")
                          then gfx_command log_fn graphics_console s
                          else (if starts_with command (codes "layout ")
                              then layout_command log_fn (drop 7 command) s
                              else (if starts_with command (codes "cmd.print")
                                  then log_fn (print_statement (drop 9 command)) s
                                  else (if is (codes "os.version")
                                      then log_fn (codes "openkernel Kernel v0.3") s
                                      else (if is (codes "os.bootinfo")
                                          then bootinfo_command log_fn s
                                          else (if length command == 0
                                              then s
                                              else log_fn (codes "Unknown command") s
                                                ▷ log_fn (
                                                    codes
                                                      "Type 'help' for available commands")))))))))))

  -- A line for the editor, a command of the filesystem, or one of the commands above.
  unfoldable pub run_command : (Text → Shell S → Shell S) → Bool → Text → Shell S → Shell S
  run_command log_fn graphics_console command s =
      let edited = fs_edit_handle_line command s.editor s.fs in
      let (found, lines, e, fs) = fs_handle_command command (s.editor, s.fs) in
      if fs_edit_is_active s.editor
      then log_all log_fn edited.1 (record s { editor = edited.2; fs = edited.3 })
      else (if found
          then log_all log_fn lines (record s { editor = e; fs = fs })
          else execute_console_command command log_fn graphics_console s)

  unfoldable pub execute_text_command : Text → Shell S → Shell S
  execute_text_command command s = run_command text_console_log false command s

  -- A line that `:e` fetched, if there is one, goes to the buffer that is given.
  unfoldable pub take_pending : ℕ → Input → Shell S → Option Input × Shell S
  take_pending size b s =
      let (pending, e) = fs_edit_get_pending_line s.editor in
      let s' = record s { editor = e } in
      elim pending [ none ↦ (none, s') | some line ↦ (some (prefill size line b), s') ]

  -- After a command, the line that was fetched or an empty one.
  unfoldable pub next_input : Shell S → Shell S
  next_input s =
      let (pending, s') = take_pending 64 s.pseudo_cmd s in
      elim pending [
        | none ↦ record s' { pseudo_cmd = clear_input s'.pseudo_cmd }
        | some filled ↦ record s' { pseudo_cmd = filled }
      ]

  unfoldable pub pseudo_console_execute : Shell S → Shell S
  pseudo_console_execute s =
      let b = record s.pseudo_cmd { cmd = update s.pseudo_cmd.cmd s.pseudo_cmd.cmd_len 0 } in
      let command = text_of 64 b in
      let asked = record s { pseudo_cmd = b } in
      (if ltb 0 b.cmd_len
        then (log_prompt command asked ▷ run_command pseudo_console_log true command)
        else asked)
      ▷ next_input
