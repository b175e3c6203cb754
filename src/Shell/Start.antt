-- ===== src/Shell/Start.antt =====
-- The progress lines of `kernel_init` and what `kernel_main` of src/kernel/kernel.c prints and keeps
-- before its loop.
use openkernel.Base.{
  ℕ, zero, suc, ◌+◌, ◌/◌, ◌%◌, ◌^◌, Option, none, some, [], ◌∷◌, ltb, if◌then◌else◌, take, Option,
  Text, codes,
}
use openkernel.Console.{vga_clear}
use openkernel.Console.Format.{int, str}
use openkernel.Shell.Commands.{text_of}
use openkernel.Shell.Loop.{cmd_buffer_size}
use openkernel.Shell.Prompt.{show_text_prompt}
use openkernel.Shell.Statements.{BootInfo}
use openkernel.Shell.State.{Shell, ◌▷◌, print}

-- `bar`: the `k` places from place `i` on, of which those before `step` are full.
unfoldable pub loading_bar : ℕ → ℕ → ℕ → Text
loading_bar zero i step = []
loading_bar (suc k) i step =
    let rest = loading_bar k (i + 1) step in (if ltb i step then b'#' else b'-') ∷ rest

-- The `boot_loader_name` that is kept: at most 63 characters of it; `none` for a NULL pointer.
unfoldable pub kept_name : Option Text → Option Text
kept_name none = none
kept_name (some name) = some (take 63 name)

-- `magic`, and the fields of the Multiboot information
unfoldable pub save_boot_info : ℕ → ℕ → ℕ → ℕ → Option Text → BootInfo
save_boot_info magic flags mem_lower mem_upper name = record {
  saved_magic = magic;
  saved_flags = flags;
  saved_mem_lower = mem_lower;
  saved_mem_upper = mem_upper;
  saved_boot_loader = kept_name name;
}

module _ {S : Type 0} where
  -- The frame after the line, and the console with it.
  unfoldable pub loading_tick_inline : Text → ℕ → Shell S → ℕ × Shell S
  loading_tick_inline component frame s =
      let step = if ltb 5 (frame + 1) then 5 else frame + 1 in
      (
        frame + 1,
        print (codes "[Loading %d/%d] [%s] %s\n")
            (int step ∷ int 5 ∷ str (loading_bar 5 0 step) ∷ str component ∷ []) s,
      )

  unfoldable pub print_loader : Option Text → Shell S → Shell S
  print_loader none s = s
  print_loader (some name) s = print (codes "Loader: %s\n") (str name ∷ []) s

  unfoldable pub print_boot_info : ℕ → ℕ → ℕ → ℕ → Option Text → Shell S → Shell S
  print_boot_info magic flags mem_lower mem_upper name s =
      let total = (mem_upper + mem_lower) % 2 ^ 32 / 1024 in
      print (codes "=== openkernel Boot Info ===\n") [] s
      ▷ print (codes "Magic: 0x%x  Flags: 0x%x\n") (int magic ∷ int flags ∷ [])
      ▷ print (codes "Memory: %d KB lower, %d KB upper (%d MB total)\n")
          (int mem_lower ∷ int mem_upper ∷ int total ∷ [])
      ▷ print_loader name

  -- The screen on which the loop starts.
  unfoldable pub command_line : Shell S → Shell S
  command_line s =
      let cleared = record s { terminal = vga_clear s.terminal } in
      print (codes "openkernel Command Line\n") [] cleared
      ▷ print (codes "Type 'help' for available commands.\n") []
      ▷ (λ t. record t {
        terminal =
            show_text_prompt t.editor (text_of cmd_buffer_size t.cmd) t.cmd.cmd_cursor t.terminal;
      })

  -- From the boot information to the prompt.
  unfoldable pub report_boot : ℕ → ℕ → ℕ → ℕ → Option Text → Shell S → Shell S
  report_boot magic flags mem_lower mem_upper name s =
      print_boot_info magic flags mem_lower mem_upper name s
      ▷ (λ t. record t { boot = save_boot_info magic flags mem_lower mem_upper name })
      ▷ command_line
