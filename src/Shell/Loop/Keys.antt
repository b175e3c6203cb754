-- ===== src/Shell/Loop/Keys.antt =====
-- The keys leave the command buffers sound.
use openkernel.Base.{
  ℕ, ◌-◌, ◌≡◌, refl, Bool, true, false, ◌&&◌, inl, inr, ltb, leb, ◌==◌, if◌then◌else◌, update,
  Bool-cases, Option-cases, leb→le, arith,
}
use openkernel.Keyboard.Events.{keyboard_get_scancode, keyboard_scancode_to_ascii}
use openkernel.Fs.Editor.{fs_edit_is_active}
use openkernel.Console.{vga_cols}
use openkernel.Graphics.Ports.{Machine}
use openkernel.Shell.Input.{clear_input}
use openkernel.Shell.Input.Laws.{insert_char-IsValid, backspace-IsValid}
use openkernel.Shell.Prompt.{get_prompt_prefix_len}
use openkernel.Shell.State.{Shell, faulted, ◌▷◌, pseudo_console_log, log_prompt}
use openkernel.Shell.Screens.{draw_prompt, draw_console}
use openkernel.Shell.Commands.{
  text_of, take_pending, run_command, next_input, pseudo_console_execute,
}
use openkernel.Shell.Loop.{
  cmd_buffer_size, pseudo_cmd_size, text_char, text_key, pseudo_entered, pseudo_enter, pseudo_key,
  test_key, handle_key, take_key,
}
use openkernel.Shell.Loop.Kept.{log_prompt-Kept, ▷-keeps, pseudo-Kept}
use openkernel.Shell.Loop.Valid.{
  drawn, with_keyboard, BuffersValid, clear_input-IsValid, Kept-Valid, with_cmd, with_pseudo,
  pick_Valid, show-Valid, take_pending-Pending, ended_IsValid, enter-Valid, wrap-Valid,
}

both_right : (a b c : Bool) → (a && b && c) ≡ true → b ≡ true
both_right true true c e = refl
both_right true false c e = e
both_right false b c e = cc

module _ {S : Type 0} (io : Machine S) where
  text_char-Valid : (ch : ℕ) (s : Shell S) → BuffersValid s → BuffersValid (text_char io ch s)
  unfolding text_char
  text_char-Valid ch s v =
      let left = vga_cols - get_prompt_prefix_len s.editor in
      let avail = if left == 0 then 1 else left in
      let len = s.cmd.cmd_len in
      let wraps = fs_edit_is_active s.editor && leb avail len && ltb len (cmd_buffer_size - 1) in
      let inserted = with_cmd _ v (insert_char-IsValid cmd_buffer_size s.cmd v.text ch) in
      elim (Bool-cases wraps) [
        | inl e ↦
            rw (e, text_char)
              (wrap-Valid io avail ch s (ground arith) (leb→le avail len (both_right _ _ _ e)) v)
        | inr e ↦
            rw (e, text_char)
              (pick_Valid (ltb len (cmd_buffer_size - 1)) (show-Valid io _ inserted) v)
      ]

  text_key-Valid : (sc ch : ℕ) (s : Shell S) → BuffersValid s → BuffersValid (text_key io sc ch s)
  unfolding text_key
  text_key-Valid sc ch s v = pick_Valid (sc == 0x1C) (enter-Valid io s v) (
      pick_Valid (sc == 0x0E)
        (show-Valid io _ (with_cmd _ v (backspace-IsValid cmd_buffer_size s.cmd v.text)))
        (pick_Valid (leb 32 ch && leb ch 126) (text_char-Valid ch s v) v))

  next_input-Valid : (s : Shell S) → BuffersValid s → BuffersValid (next_input io s)
  unfolding next_input
  next_input-Valid s v =
      let r = take_pending io 64 s.pseudo_cmd s in
      let (kept, cases) = take_pending-Pending io 64 s.pseudo_cmd s (omega arith) in
      let v' : BuffersValid r.1 = Kept-Valid kept v in
      elim cases [
        | inl e ↦
            rw (e, next_input)
              (with_pseudo _ v' (clear_input-IsValid pseudo_cmd_size r.1.pseudo_cmd (omega arith)))
        | inr (f, e, fv) ↦ rw (e, next_input) (with_pseudo f v' fv)
      ]

  pseudo_entered-Valid :
      (had : Bool) (s : Shell S) → BuffersValid s → BuffersValid (pseudo_entered io had s)
  unfolding pseudo_entered draw_console draw_prompt
  pseudo_entered-Valid had s v = ground (arith, v.text.cursor)

  pseudo_enter-Valid : (s : Shell S) → BuffersValid s → BuffersValid (pseudo_enter io s)
  unfolding pseudo_enter pseudo_console_execute
  pseudo_enter-Valid s v =
      let b = record s.pseudo_cmd { cmd = update s.pseudo_cmd.cmd s.pseudo_cmd.cmd_len 0 } in
      let command = text_of 64 b in
      let asked = record s { pseudo_cmd = b } in
      let logged = log_prompt command asked in
      let va : BuffersValid asked =
        with_pseudo b v (ended_IsValid io pseudo_cmd_size s.pseudo_cmd v.pseudo) in
      let vl : BuffersValid logged = Kept-Valid (log_prompt-Kept command asked) va in
      let run = run_command io pseudo_console_log true command in
      let done = logged ▷ run in
      let vd : BuffersValid done =
        ▷-keeps BuffersValid logged run vl (Kept-Valid (pseudo-Kept io command logged) vl) in
      let first = if ltb 0 b.cmd_len then done else asked in
      let v1 : BuffersValid first = pick_Valid (ltb 0 b.cmd_len) vd va in
      let v2 = ▷-keeps BuffersValid first (next_input io) v1 (next_input-Valid first v1) in
      let last = first ▷ next_input io in
      ▷-keeps BuffersValid last (pseudo_entered io (ltb 0 s.pseudo_cmd.cmd_len)) v2
        (pseudo_entered-Valid (ltb 0 s.pseudo_cmd.cmd_len) last v2)

  pseudo_key-Valid :
      (sc ch : ℕ) (s : Shell S) → BuffersValid s → BuffersValid (pseudo_key io sc ch s)
  unfolding pseudo_key
  pseudo_key-Valid sc ch s v =
      let b = s.pseudo_cmd in
      let back = with_pseudo _ v (backspace-IsValid pseudo_cmd_size b v.pseudo) in
      let more = with_pseudo _ v (insert_char-IsValid pseudo_cmd_size b v.pseudo ch) in
      pick_Valid (sc == 0x1C) (pseudo_enter-Valid s v) (
        pick_Valid (sc == 0x0E) (pick_Valid (ltb 0 b.cmd_cursor) (drawn _ back).0 v) (
          pick_Valid ((leb 32 ch && leb ch 126) && ltb b.cmd_len (pseudo_cmd_size - 1))
            (drawn _ more).0 v))

  test_key-Valid : (sc ch : ℕ) (s : Shell S) → BuffersValid s → BuffersValid (test_key io sc ch s)
  unfolding test_key
  test_key-Valid sc ch s v =
      let b = s.pseudo_cmd in
      let shown = record s { pseudo_text_mode_active = true; pseudo_cmd = clear_input b } in
      let empty : BuffersValid shown = record {
        text = v.text;
        pseudo = clear_input-IsValid pseudo_cmd_size b (omega arith);
      } in
      pick_Valid (sc == 0x1C) (drawn shown empty).1 (
        pick_Valid (sc == 0x0E) (with_pseudo _ v (backspace-IsValid pseudo_cmd_size b v.pseudo)) (
          pick_Valid (leb 32 ch && leb ch 126)
            (with_pseudo _ v (insert_char-IsValid pseudo_cmd_size b v.pseudo ch)) v))

  handle_key-Valid :
      (sc ch : ℕ) (s : Shell S) → BuffersValid s → BuffersValid (handle_key io sc ch s)
  unfolding handle_key
  handle_key-Valid sc ch s v =
      pick_Valid s.graphics_mode_active
        (pick_Valid s.pseudo_text_mode_active (pseudo_key-Valid sc ch s v)
          (test_key-Valid sc ch s v))
        (text_key-Valid sc ch s v)

  pub take_key-Valid : (s : Shell S) → BuffersValid s → BuffersValid (take_key io s)
  unfolding take_key
  take_key-Valid s v =
      let r = keyboard_get_scancode s.keyboard in
      let s' = record s { keyboard = r.1 } in
      let v' : BuffersValid s' = with_keyboard r.1 v in
      let faults : BuffersValid (record s' { outcome = faulted }) = record {
        text = v.text;
        pseudo = v.pseudo;
      } in
      elim (Option-cases (keyboard_scancode_to_ascii r.0 r.1)) [
        | inl e ↦ rw (e, take_key) (pick_Valid (r.0 == 0) v' faults)
        | inr (ch, e) ↦ rw (e, take_key) (pick_Valid (r.0 == 0) v' (handle_key-Valid r.0 ch s' v'))
      ]
