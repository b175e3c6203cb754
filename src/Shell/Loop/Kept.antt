-- ===== src/Shell/Loop/Kept.antt =====
-- The commands leave the command buffers alone.
use openkernel.Base.{
  ◌≡◌, ◌∙◌, refl, Bool, true, false, some, List, [], ◌∷◌, if◌then◌else◌, Text, codes, Option-cases,
  inl, inr, ◌++◌, ◌==◌, length, take, drop, arith,
}
use openkernel.Fs.Strings.{streq}
use openkernel.Fs.Shell.{starts_with, fs_handle_command}
use openkernel.Fs.Editor.{fs_edit_handle_line}
use openkernel.Console.Format.{Arg, str}
use openkernel.Graphics.Ports.{Machine}
use openkernel.Shell.Statements.{bootinfo_lines, show_help_main, show_help_os, print_statement}
use openkernel.Shell.Log.{append_gfx_log, append_gfx_prompt_line}
use openkernel.Shell.State.{
  Shell, Outcome, running, halted, faulted, ◌▷◌, print, log_all, text_console_log,
  pseudo_console_log, log_prompt,
}
use openkernel.Shell.Screens.{draw_test, draw_console}
use openkernel.Console.{vga_clear}
use openkernel.Keyboard.Layouts.{keyboard_detect_layout}
use openkernel.Shell.Commands.{
  last_look, reboot_system, shutdown_system, enter_gfx, clear_command, gfx_command, layout_command,
  bootinfo_command, execute_console_command, run_command, execute_text_command,
}

pub record Kept {S : Type 0} (s t : Shell S) : Type 0 where
  pub cmd : t.cmd ≡ s.cmd
  pub pseudo_cmd : t.pseudo_cmd ≡ s.pseudo_cmd

-- What holds of a state and of what follows holds of both in sequence.
pub ▷-keeps :
    {S : Type 0} (P : Shell S → Type 0) (s : Shell S) (f : Shell S → Shell S)
    → P s
    → P (f s)
    → P (s ▷ f)
▷-keeps P s f p q = at s.outcome
  where
    at : (o : Outcome) → P (elim o [ running ↦ f s | halted ↦ s | faulted ↦ s ])
    at running = q
    at halted = p
    at faulted = p

module _ {S : Type 0} where
  Kept-trans : {s t u : Shell S} → Kept s t → Kept t u → Kept s u
  Kept-trans p q = record { cmd = q.cmd ∙ p.cmd; pseudo_cmd = q.pseudo_cmd ∙ p.pseudo_cmd }

  pick : {s x y : Shell S} (b : Bool) → Kept s x → Kept s y → Kept s (if b then x else y)
  pick true p q = p
  pick false p q = q

  pub then_Kept : {s t : Shell S} (f : Shell S → Shell S) → Kept s t → Kept t (f t) → Kept s (t ▷ f)
  then_Kept {s} {t} f p q = ▷-keeps (Kept s) t f p (Kept-trans p q)

  pub print-Kept : (format : Text) (args : List Arg) (s : Shell S) → Kept s (print format args s)
  unfolding print
  print-Kept format args s = ground arith

  text_log-Kept : (msg : Text) (s : Shell S) → Kept s (text_console_log msg s)
  unfolding text_console_log
  text_log-Kept msg s = print-Kept (codes "%s\n") (str msg ∷ []) s

  pseudo_log-Kept : (msg : Text) (s : Shell S) → Kept s (pseudo_console_log msg s)
  unfolding pseudo_console_log
  pseudo_log-Kept msg s = elim (Option-cases (append_gfx_log msg s.gfx)) [
    | inl e ↦ rw (e, pseudo_console_log) (record { cmd = refl; pseudo_cmd = refl })
    | inr (l, e) ↦ rw (e, pseudo_console_log) (record { cmd = refl; pseudo_cmd = refl })
  ]

  pub log_prompt-Kept : (command : Text) (s : Shell S) → Kept s (log_prompt command s)
  unfolding log_prompt
  log_prompt-Kept command s = elim (Option-cases (append_gfx_prompt_line command s.gfx)) [
    | inl e ↦ rw (e, log_prompt) (record { cmd = refl; pseudo_cmd = refl })
    | inr (l, e) ↦ rw (e, log_prompt) (record { cmd = refl; pseudo_cmd = refl })
  ]

  -- The function that logs a line, in the console that the command was typed in.
  module _ (log_fn : Text → Shell S → Shell S)
      (logs : (msg : Text) (s : Shell S) → Kept s (log_fn msg s)) where
    pub log_all-Kept : (lines : List Text) (s : Shell S) → Kept s (log_all log_fn lines s)
    unfolding log_all
    log_all-Kept [] s = record { cmd = refl; pseudo_cmd = refl }
    log_all-Kept (l ∷ ls) s =
        then_Kept (log_all log_fn ls) (logs l s) (log_all-Kept ls (log_fn l s))

    module _ (io : Machine S) where
      same : (s : Shell S) → Kept s s
      same s = record { cmd = refl; pseudo_cmd = refl }

      clear-Kept : (g : Bool) (s : Shell S) → Kept s (clear_command io g s)
      unfolding clear_command
      clear-Kept g s =
          let s0 = record s { terminal = vga_clear s.terminal } in
          let s1 = print (codes "openkernel Command Line\n") [] s0 in
          ground (
            arith,
            print-Kept (codes "openkernel Command Line\n") [] s0,
            print-Kept (codes "Type 'help' for available commands.\n") [] s1,
          )

      enter-Kept : (s : Shell S) → Kept s (enter_gfx io s).1
      unfolding enter_gfx draw_test
      enter-Kept s = ground arith

      gfx-Kept : (g : Bool) (s : Shell S) → Kept s (gfx_command io log_fn g s)
      unfolding gfx_command draw_test
      gfx-Kept g s =
          let s' = (enter_gfx io s).1 in
          ground (arith, enter-Kept s, logs (codes "Failed to enter graphics mode") s')

      layout-Kept : (code : Text) (s : Shell S) → Kept s (layout_command io log_fn code s)
      unfolding layout_command
      layout-Kept code s =
          let param = codes "layout=" ++ take 8 code in
          let s' = record s { keyboard = keyboard_detect_layout (some param) s.keyboard } in
          ground (arith, logs (codes "Layout changed") s')

      bootinfo-Kept : (s : Shell S) → Kept s (bootinfo_command io log_fn s)
      unfolding bootinfo_command
      bootinfo-Kept s = elim (Option-cases (bootinfo_lines s.boot)) [
        | inl e ↦ ground arith
        | inr (lines, e) ↦ ground (arith, log_all-Kept lines s)
      ]

      stops-Kept :
          (msg : Text) (g : Bool) (stop : Shell S → Shell S) (s : Shell S)
          → ((t : Shell S) → Kept t (stop t))
          → Kept s (log_fn msg s ▷ last_look io g ▷ stop)
      unfolding draw_console
      stops-Kept msg g stop s h =
          let s1 = log_fn msg s in ground (arith, logs msg s, h (s1 ▷ last_look io g))

      unknown-Kept :
          (s : Shell S)
          → Kept s (
              log_fn (codes "Unknown command") s
              ▷ log_fn (codes "Type 'help' for available commands"))
      unknown-Kept s =
          let first = codes "Unknown command" in
          let second = codes "Type 'help' for available commands" in
          ground (arith, logs first s, logs second (log_fn first s))

      stop_Kept : (s : Shell S) → Kept s (reboot_system io s) × Kept s (shutdown_system io s)
      unfolding reboot_system shutdown_system
      stop_Kept s = ground arith

      console-Kept :
          (command : Text) (g : Bool) (s : Shell S)
          → Kept s (execute_console_command io command log_fn g s)
      unfolding execute_console_command
      console-Kept command g s =
          let is = streq command in
          let reboot =
            stops-Kept (codes "Rebooting...") g (reboot_system io) s (λ t. (stop_Kept t).0) in
          let shutdown =
            stops-Kept (codes "Shutting down...") g (shutdown_system io) s (λ t. (stop_Kept t).1) in
          pick (is (codes "help")) (log_all-Kept show_help_main s) (
            pick (is (codes "help --os")) (log_all-Kept show_help_os s) (
              pick (is (codes "clear")) (clear-Kept g s) (
                pick (is (codes "reboot")) reboot (
                  pick (is (codes "shutdown")) shutdown (
                    pick (is (codes "gfx")) (gfx-Kept g s) (
                      pick (starts_with command (codes "layout ")) (layout-Kept (drop 7 command) s)
                        (pick (starts_with command (codes "cmd.print"))
                          (logs (print_statement (drop 9 command)) s)
                          (pick (is (codes "os.version")) (logs (codes "openkernel Kernel v0.3") s)
                            (pick (is (codes "os.bootinfo")) (bootinfo-Kept s)
                              (pick (length command == 0) (same s) (unknown-Kept s)))))))))))

      pub run-Kept :
          (g : Bool) (command : Text) (s : Shell S) → Kept s (run_command io log_fn g command s)
      unfolding run_command
      run-Kept g command s =
          let edited = fs_edit_handle_line command s.editor s.fs in
          let done = fs_handle_command command (s.editor, s.fs) in
          let s1 = record s { editor = edited.2; fs = edited.3 } in
          let s2 = record s { editor = done.2; fs = done.3 } in
          ground (arith, log_all-Kept edited.1 s1, log_all-Kept done.1 s2, console-Kept command g s)

module _ {S : Type 0} (io : Machine S) where
  pub text-Kept : (command : Text) (s : Shell S) → Kept s (execute_text_command io command s)
  unfolding execute_text_command
  text-Kept command s = run-Kept text_console_log text_log-Kept io false command s

  pub pseudo-Kept :
      (command : Text) (s : Shell S) → Kept s (run_command io pseudo_console_log true command s)
  pseudo-Kept command s = run-Kept pseudo_console_log pseudo_log-Kept io true command s

  pub text_lines-Kept :
      (lines : List Text) (s : Shell S) → Kept s (log_all text_console_log lines s)
  text_lines-Kept lines s = log_all-Kept text_console_log text_log-Kept lines s

  pub entered-Kept : (s : Shell S) → Kept s (enter_gfx io s).1
  entered-Kept s = enter-Kept text_console_log text_log-Kept io s
