-- ===== src/Shell/Input.antt =====
-- The command buffers of `kernel_main` in src/kernel/kernel.c, `cmd` and `pseudo_cmd`, and what the
-- keys do to them. The size of the array is an argument.
pub mod Slices
pub mod Laws
use openkernel.Base.{ℕ, zero, suc, ◌+◌, ◌-◌, Bool, true, false, ltb, ◌==◌, if◌then◌else◌, update}

pub record Input : Type 0 where
  pub cmd : ℕ → ℕ
  pub cmd_len : ℕ
  pub cmd_cursor : ℕ

-- `for (int i = cmd_len; i > cmd_cursor; i--) cmd[i] = cmd[i-1];` with `k` rounds left
unfoldable pub shift_up : ℕ → ℕ → (ℕ → ℕ) → ℕ → ℕ
shift_up zero cursor cmd = cmd
shift_up (suc k) cursor cmd = shift_up k cursor (update cmd (cursor + suc k) (cmd (cursor + k)))

-- `for (; i < cmd_len - 1; i++) cmd[i] = cmd[i+1];` with `k` rounds left
unfoldable pub shift_down : ℕ → ℕ → (ℕ → ℕ) → ℕ → ℕ
shift_down zero i cmd = cmd
shift_down (suc k) i cmd = shift_down k (i + 1) (update cmd i (cmd (i + 1)))

unfoldable pub insert_char : ℕ → ℕ → Input → Input
insert_char size ch b =
    let moved = shift_up (b.cmd_len - b.cmd_cursor) b.cmd_cursor b.cmd in
    if ltb b.cmd_len (size - 1)
    then record {
      cmd = update (update moved b.cmd_cursor ch) (b.cmd_len + 1) 0;
      cmd_len = b.cmd_len + 1;
      cmd_cursor = b.cmd_cursor + 1;
    }
    else b

unfoldable pub backspace : Input → Input
backspace b =
    let from = b.cmd_cursor - 1 in
    if ltb 0 b.cmd_cursor
    then record {
      cmd = update (shift_down (b.cmd_len - 1 - from) from b.cmd) (b.cmd_len - 1) 0;
      cmd_len = b.cmd_len - 1;
      cmd_cursor = from;
    }
    else b

unfoldable pub delete : Input → Input
delete b =
    let from = b.cmd_cursor in
    if ltb b.cmd_cursor b.cmd_len
    then record b {
      cmd = update (shift_down (b.cmd_len - 1 - from) from b.cmd) (b.cmd_len - 1) 0;
      cmd_len = b.cmd_len - 1;
    }
    else b

unfoldable pub arrow_left : Input → Input
arrow_left b = if ltb 0 b.cmd_cursor then record b { cmd_cursor = b.cmd_cursor - 1 } else b

unfoldable pub arrow_right : Input → Input
arrow_right b = if ltb b.cmd_cursor b.cmd_len then record b { cmd_cursor = b.cmd_cursor + 1 } else b

-- `cmd_len = 0; cmd_cursor = 0; cmd[0] = '\0';`
unfoldable pub clear_input : Input → Input
clear_input b = record { cmd = update b.cmd 0 0; cmd_len = 0; cmd_cursor = 0 }

-- The keys that change a command.
pub data Key : Type 0 where
  typed : ℕ → Key
  back del left right : Key

unfoldable pub press : ℕ → Key → Input → Input
press size (typed ch) b = insert_char size ch b
press size back b = backspace b
press size del b = delete b
press size left b = arrow_left b
press size right b = arrow_right b
