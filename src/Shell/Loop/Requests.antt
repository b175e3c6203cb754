-- ===== src/Shell/Loop/Requests.antt =====
-- The toggle of the graphics and the requests of the keyboard leave the command buffers sound.
use openkernel.Base.{ℕ, Bool, true, false, ◌&&◌}
use openkernel.Graphics.Ports.{Machine}
use openkernel.Shell.Input.{Input, delete, arrow_left, arrow_right}
use openkernel.Shell.Input.Laws.{IsValid, delete-IsValid, arrow_left-IsValid, arrow_right-IsValid}
use openkernel.Shell.State.{Shell}
use openkernel.Shell.Loop.{
  cmd_buffer_size, pseudo_cmd_size, take_toggle, edit_with, scroll, before_cursor, after_cursor,
  take_up, take_down, take_left, take_right, take_delete, take_requests,
}
use openkernel.Shell.Loop.Kept.{entered-Kept}
use openkernel.Shell.Loop.Valid.{
  drawn, with_keyboard, BuffersValid, Kept-Valid, with_cmd, with_pseudo, pick_Valid, show-Valid,
}

module _ {S : Type 0} (io : Machine S) where
  pub take_toggle-Valid : (s : Shell S) → BuffersValid s → BuffersValid (take_toggle io s)
  unfolding take_toggle
  take_toggle-Valid s v =
      let s' = record s { keyboard = record s.keyboard { graphics_toggle_requested = false } } in
      let v' : BuffersValid s' = record { text = v.text; pseudo = v.pseudo } in
      let off : BuffersValid (record s' { pseudo_text_mode_active = false }) = record {
        text = v.text;
        pseudo = v.pseudo;
      } in
      let on : BuffersValid (record s' { pseudo_text_mode_active = true }) = record {
        text = v.text;
        pseudo = v.pseudo;
      } in
      pick_Valid s.keyboard.graphics_toggle_requested
        (pick_Valid s.graphics_mode_active
          (pick_Valid s.pseudo_text_mode_active (drawn _ off).2 (drawn _ on).1)
          (Kept-Valid (entered-Kept io s') v'))
        v

  edit_with-Valid :
      (can : Input → Bool) (change : Input → Input)
      → ((size : ℕ) (b : Input) → IsValid size b → IsValid size (change b))
      → (s : Shell S) → BuffersValid s
      → BuffersValid (edit_with io can change s)
  unfolding edit_with
  edit_with-Valid can change keeps s v =
      pick_Valid s.graphics_mode_active
        (pick_Valid (s.pseudo_text_mode_active && can s.pseudo_cmd)
          (drawn _ (with_pseudo _ v (keeps pseudo_cmd_size s.pseudo_cmd v.pseudo))).0 v)
        (pick_Valid (can s.cmd)
          (show-Valid io _ (with_cmd _ v (keeps cmd_buffer_size s.cmd v.text))) v)

  scroll-Valid : (up : Bool) (s : Shell S) → BuffersValid s → BuffersValid (scroll io up s)
  unfolding scroll
  scroll-Valid up s v =
      pick_Valid s.graphics_mode_active v (record { text = v.text; pseudo = v.pseudo })

  take_up-Valid : (s : Shell S) → BuffersValid s → BuffersValid (take_up io s)
  unfolding take_up
  take_up-Valid s v =
      let cleared = with_keyboard (record s.keyboard { arrow_up_requested = false }) v in
      pick_Valid s.keyboard.arrow_up_requested (scroll-Valid true _ cleared) v

  take_down-Valid : (s : Shell S) → BuffersValid s → BuffersValid (take_down io s)
  unfolding take_down
  take_down-Valid s v =
      let cleared = with_keyboard (record s.keyboard { arrow_down_requested = false }) v in
      pick_Valid s.keyboard.arrow_down_requested (scroll-Valid false _ cleared) v

  take_left-Valid : (s : Shell S) → BuffersValid s → BuffersValid (take_left io s)
  unfolding take_left
  take_left-Valid s v =
      let cleared = with_keyboard (record s.keyboard { arrow_left_requested = false }) v in
      pick_Valid s.keyboard.arrow_left_requested
        (edit_with-Valid before_cursor arrow_left arrow_left-IsValid _ cleared) v

  take_right-Valid : (s : Shell S) → BuffersValid s → BuffersValid (take_right io s)
  unfolding take_right
  take_right-Valid s v =
      let cleared = with_keyboard (record s.keyboard { arrow_right_requested = false }) v in
      pick_Valid s.keyboard.arrow_right_requested
        (edit_with-Valid after_cursor arrow_right arrow_right-IsValid _ cleared) v

  take_delete-Valid : (s : Shell S) → BuffersValid s → BuffersValid (take_delete io s)
  unfolding take_delete
  take_delete-Valid s v =
      let cleared = with_keyboard (record s.keyboard { delete_requested = false }) v in
      pick_Valid s.keyboard.delete_requested
        (edit_with-Valid after_cursor delete delete-IsValid _ cleared) v

  pub take_requests-Valid : (s : Shell S) → BuffersValid s → BuffersValid (take_requests io s)
  unfolding take_requests
  take_requests-Valid s v =
      take_delete-Valid _
        (take_right-Valid _ (take_left-Valid _ (take_down-Valid _ (take_up-Valid s v))))
