-- ===== src/Shell/State.antt =====
-- The state that `kernel_main` of src/kernel/kernel.c and the commands share, and what they print.
use openkernel.Base.{Bool, none, some, List, [], ◌∷◌, Text, codes}
use openkernel.Fs.{Fs}
use openkernel.Fs.Editor.{Editor}
use openkernel.Keyboard.{Keyboard}
use openkernel.Console.{Terminal}
use openkernel.Console.Format.{Arg, str, printk}
use openkernel.Graphics.Bytes.{Bytes}
use openkernel.Graphics.Display.{Mode}
use openkernel.Graphics.Registers.{TextState}
use openkernel.Shell.Input.{Input}
use openkernel.Shell.Log.{GfxLog, append_gfx_log, append_gfx_prompt_line}
use openkernel.Shell.Statements.{BootInfo}

-- `halted` stands for a call that does not return, `faulted` for a write outside an array or what
-- else C leaves undefined.
pub data Outcome : Type 0 where
  running halted faulted : Outcome

pub record Shell (S : Type 0) : Type 0 where
  pub terminal : Terminal
  pub gfx : GfxLog
  pub cmd : Input
  pub pseudo_cmd : Input
  pub graphics_mode_active : Bool
  pub pseudo_text_mode_active : Bool
  pub editor : Editor
  pub fs : Fs
  pub keyboard : Keyboard
  pub boot : BootInfo
  pub mode : Mode
  pub pixels : Bytes
  pub vga_text_state_saved : Bool
  pub saved_text_state : TextState
  pub machine : S
  pub outcome : Outcome

module _ {S : Type 0} where
  -- What follows a call runs if the call returns.
  infixl 5 ◌▷◌
  abbrev pub ◌▷◌ : Shell S → (Shell S → Shell S) → Shell S
  s ▷ f = elim s.outcome [ running ↦ f s | halted ↦ s | faulted ↦ s ]

  unfoldable pub print : Text → List Arg → Shell S → Shell S
  print format args s = elim (printk format args s.terminal) [
    | none ↦ record s { outcome = faulted }
    | some t ↦ record s { terminal = t }
  ]

  unfoldable pub text_console_log : Text → Shell S → Shell S
  text_console_log msg s = print (codes "%s\n") (str msg ∷ []) s

  unfoldable pub pseudo_console_log : Text → Shell S → Shell S
  pseudo_console_log msg s = elim (append_gfx_log msg s.gfx) [
    | none ↦ record s { outcome = faulted }
    | some l ↦ record s { gfx = l }
  ]

  -- The line of the prompt in the log of the graphics console.
  unfoldable pub log_prompt : Text → Shell S → Shell S
  log_prompt command s = elim (append_gfx_prompt_line command s.gfx) [
    | none ↦ record s { outcome = faulted }
    | some l ↦ record s { gfx = l }
  ]

  -- A list of lines, each by the function that is given.
  unfoldable pub log_all : (Text → Shell S → Shell S) → List Text → Shell S → Shell S
  log_all log_fn [] s = s
  log_all log_fn (l ∷ ls) s = log_fn l s ▷ log_all log_fn ls
