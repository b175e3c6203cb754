-- ===== src/Shell/Loop/Valid.antt =====
-- The command buffers stay inside their arrays, whatever is typed and whatever the commands do.
use mathlib.Core.Path.{subst}
use openkernel.Base.{
  sym, ℕ, zero, suc, ◌-◌, ◌≤◌, ◌<◌, ◌≡◌, refl, Bool, true, false, ◌&&◌, Option, none, some, ◌⊎◌,
  inl, inr, [], ltb, if◌then◌else◌, update, Text, codes, Bool-cases, Option-cases, length-take,
  arith,
}
use openkernel.Graphics.Ports.{Machine}
use openkernel.Fs.Editor.{fs_edit_is_active, fs_edit_display_content, fs_edit_get_pending_line}
use openkernel.Shell.Input.{Input, clear_input}
use openkernel.Shell.Input.Laws.{IsValid}
use openkernel.Shell.State.{Shell, ◌▷◌, print, log_all, text_console_log}
use openkernel.Fs.Shell.{starts_with}
use openkernel.Shell.Commands.{text_of, execute_text_command, take_pending, prefill}
use openkernel.Shell.Loop.Kept.{Kept, ▷-keeps, then_Kept, print-Kept, text-Kept, text_lines-Kept}
use openkernel.Keyboard.{Keyboard}
use openkernel.Shell.Screens.{draw_prompt, draw_console, draw_test}
use openkernel.Shell.Loop.{
  show_prompt, next_prompt, after_command, submit, text_enter, carry, wrap_line, cut_at,
  cmd_buffer_size, pseudo_cmd_size, carry_over, break_at, last_space,
}

-- Both buffers are valid.
pub record BuffersValid {S : Type 0} (s : Shell S) : Type 0 where
  pub text : IsValid cmd_buffer_size s.cmd
  pub pseudo : IsValid pseudo_cmd_size s.pseudo_cmd

pub clear_input-IsValid : (size : ℕ) (b : Input) → 0 < size → IsValid size (clear_input b)
unfolding clear_input
clear_input-IsValid size b h = ground arith

prefill-IsValid :
    (size : ℕ) (line : Text) (b : Input) → 2 ≤ size → IsValid size (prefill size line b)
unfolding prefill
prefill-IsValid size line b h = ground (arith, length-take (size - 2) line)

carry_over-IsValid :
    (break_pos ch : ℕ) (b : Input)
    → b.cmd_len < cmd_buffer_size
    → break_pos < b.cmd_len
    → IsValid cmd_buffer_size (carry_over break_pos ch b)
unfolding carry_over
carry_over-IsValid break_pos ch b h g = ground arith

module _ {S : Type 0} where
  pub Kept-Valid : {s t : Shell S} → Kept s t → BuffersValid s → BuffersValid t
  Kept-Valid k v = record {
    text = subst (IsValid cmd_buffer_size) (sym k.cmd) v.text;
    pseudo = subst (IsValid pseudo_cmd_size) (sym k.pseudo_cmd) v.pseudo;
  }

  -- The state with another text command, or another one of the graphics console.
  pub with_cmd :
      {s : Shell S} (b : Input)
      → BuffersValid s
      → IsValid cmd_buffer_size b
      → BuffersValid (record s { cmd = b })
  with_cmd b v h = record { text = h; pseudo = v.pseudo }

  pub with_pseudo :
      {s : Shell S} (b : Input)
      → BuffersValid s
      → IsValid pseudo_cmd_size b
      → BuffersValid (record s { pseudo_cmd = b })
  with_pseudo b v h = record { text = v.text; pseudo = h }

  pub pick_Valid :
      {s t : Shell S} (b : Bool)
      → BuffersValid s
      → BuffersValid t
      → BuffersValid (if b then s else t)
  pick_Valid true v w = v
  pick_Valid false v w = w

module _ {S : Type 0} (io : Machine S) where
  pub show-Valid : (s : Shell S) → BuffersValid s → BuffersValid (show_prompt io s)
  unfolding show_prompt
  show-Valid s v = record { text = v.text; pseudo = v.pseudo }

  next-Valid : (s : Shell S) → BuffersValid s → BuffersValid (next_prompt io s)
  unfolding next_prompt show_prompt
  next-Valid s v = record {
    text = clear_input-IsValid cmd_buffer_size s.cmd (omega arith);
    pseudo = v.pseudo;
  }

  -- What `take_pending` gives.
  abbrev pub Pending : ℕ → Shell S → Option Input × Shell S → Type 0
  Pending size s r = Kept s r.1 × (r.0 ≡ none ⊎ ((f : Input) × (r.0 ≡ some f) × IsValid size f))

  pub take_pending-Pending :
      (size : ℕ) (b : Input) (s : Shell S) → 2 ≤ size → Pending size s (take_pending io size b s)
  unfolding take_pending fs_edit_get_pending_line
  take_pending-Pending size b s h = elim (Bool-cases s.editor.pending_line_valid) [
    | inl e ↦
        let f = prefill size s.editor.pending_line b in
        rw e (
          record { cmd = refl; pseudo_cmd = refl },
          inr (f, refl, prefill-IsValid size s.editor.pending_line b h),
        )
    | inr e ↦ rw e (record { cmd = refl; pseudo_cmd = refl }, inl refl)
  ]

  after-Valid :
      (was_edit : Bool) (s : Shell S) → BuffersValid s → BuffersValid (after_command io was_edit s)
  unfolding after_command
  after-Valid was_edit s v =
      let r = take_pending io cmd_buffer_size s.cmd s in
      let (kept, cases) = take_pending-Pending cmd_buffer_size s.cmd s (omega arith) in
      let v' : BuffersValid r.1 = Kept-Valid kept v in
      let lines = fs_edit_display_content r.1.editor in
      let printed = log_all text_console_log lines r.1 in
      let v'' : BuffersValid printed = Kept-Valid (text_lines-Kept io lines r.1) v' in
      elim cases [
        | inl e ↦
            let shows = was_edit && fs_edit_is_active r.1.editor in
            let p = pick_Valid shows v'' v' in
            rw (e, after_command) (▷-keeps BuffersValid _ (next_prompt io) p (next-Valid _ p))
        | inr (f, e, fv) ↦ rw (e, after_command) (show-Valid _ (with_cmd f v' fv))
      ]

  submit-Valid :
      (b : Input) (s : Shell S)
      → IsValid cmd_buffer_size b
      → BuffersValid s
      → BuffersValid (submit io b s)
  unfolding submit
  submit-Valid b s bv v =
      let command = text_of cmd_buffer_size b in
      let asked = record s { cmd = b } in
      let done = execute_text_command io command asked in
      let was_edit = starts_with command (codes "edit ") in
      let va : BuffersValid asked = with_cmd b v bv in
      let vd : BuffersValid done = Kept-Valid (text-Kept io command asked) va in
      let ve =
        ▷-keeps BuffersValid done (after_command io was_edit) vd (after-Valid was_edit done vd) in
      pick_Valid (ltb 0 b.cmd_len) ve (next-Valid asked va)

  pub ended_IsValid :
      (size : ℕ) (b : Input)
      → IsValid size b
      → IsValid size (record b { cmd = update b.cmd b.cmd_len 0 })
  ended_IsValid size b v = record { cursor = v.cursor; room = v.room; ended = ground arith }

  pub enter-Valid : (s : Shell S) → BuffersValid s → BuffersValid (text_enter io s)
  unfolding text_enter
  enter-Valid s v =
      let b = record s.cmd { cmd = update s.cmd.cmd s.cmd.cmd_len 0 } in
      let r = print (codes "\n") [] s in
      let v' = Kept-Valid (print-Kept (codes "\n") [] s) v in
      ▷-keeps BuffersValid r (submit io b) v'
        (submit-Valid b r (ended_IsValid cmd_buffer_size s.cmd v.text) v')

  last_space-lt : (k : ℕ) (cmd : ℕ → ℕ) (j : ℕ) → last_space k cmd ≡ some j → j < k
  unfolding last_space
  last_space-lt zero cmd j e = cc
  last_space-lt (suc k) cmd j e = ground (arith, last_space-lt k cmd j)

  break_at-lt : (avail : ℕ) (cmd : ℕ → ℕ) → 1 ≤ avail → break_at avail cmd < avail
  unfolding break_at
  break_at-lt avail cmd h = elim (Option-cases (last_space avail cmd)) [
    | inl e ↦ rw (e, break_at) (omega arith)
    | inr (j, e) ↦ rw (e, break_at) (ground (arith, last_space-lt avail cmd j e))
  ]

  carry-Valid :
      (break_pos ch : ℕ) (s : Shell S)
      → break_pos < s.cmd.cmd_len
      → BuffersValid s
      → BuffersValid (carry io break_pos ch s)
  unfolding carry
  carry-Valid break_pos ch s h v =
      show-Valid _ (with_cmd _ v (carry_over-IsValid break_pos ch s.cmd v.text.room h))

  pub wrap-Valid :
      (avail ch : ℕ) (s : Shell S)
      → 1 ≤ avail
      → avail ≤ s.cmd.cmd_len
      → BuffersValid s
      → BuffersValid (wrap_line io avail ch s)
  unfolding wrap_line cut_at
  wrap-Valid avail ch s h g v =
      let k = break_at avail s.cmd.cmd in
      let below : k < s.cmd.cmd_len = omega (arith, break_at-lt avail s.cmd.cmd h) in
      let b = cut_at k s.cmd in
      let bv : IsValid cmd_buffer_size b = record {
        cursor = v.text.cursor;
        room = v.text.room;
        ended = ground (arith, v.text.ended);
      } in
      let s0 = record s { cmd = b } in
      let r = print (codes "\n") [] s0 in
      let kr = print-Kept (codes "\n") [] s0 in
      let vr : BuffersValid r = Kept-Valid kr (with_cmd b v bv) in
      let command = text_of cmd_buffer_size b in
      let run = execute_text_command io command in
      let m = r ▷ run in
      let km : Kept s0 m = then_Kept run kr (text-Kept io command r) in
      let vm : BuffersValid m = Kept-Valid km (with_cmd b v bv) in
      ▷-keeps BuffersValid m (carry io k ch) vm (carry-Valid k ch m (rw km.cmd below) vm)

module _ {S : Type 0} where
  -- What draws a screen or has another keyboard leaves the buffers.
  pub drawn :
      (s : Shell S)
      → BuffersValid s
      → BuffersValid (draw_prompt s) × BuffersValid (draw_console s) × BuffersValid (draw_test s)
  unfolding draw_prompt draw_console draw_test
  drawn s v = (
    record { text = v.text; pseudo = v.pseudo },
    record { text = v.text; pseudo = v.pseudo },
    record { text = v.text; pseudo = v.pseudo },
  )

  pub with_keyboard :
      {s : Shell S} (kb : Keyboard) → BuffersValid s → BuffersValid (record s { keyboard = kb })
  with_keyboard kb v = record { text = v.text; pseudo = v.pseudo }
