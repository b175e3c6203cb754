-- ===== src/Shell/Input/Laws.antt =====
-- The keys edit the text before and after the cursor.
use openkernel.Base.{
  ℕ, ◌+◌, ◌-◌, ◌≤◌, ◌<◌, ◌≡◌, [], ◌∷◌, ◌++◌, ltb, ◌==◌, if◌then◌else◌, Text, update, arith,
}
use openkernel.Shell.Input.{
  Input, shift_up, shift_down, insert_char, backspace, delete, arrow_left, arrow_right, Key, typed,
  back, del, left, right, press,
}
use openkernel.Shell.Input.Slices.{
  slice, slice-eq, slice-add_one, slice_cons, shift_up_lem, shift_down_lem,
}

abbrev pub before : Input → Text
before b = slice b.cmd 0 b.cmd_cursor

abbrev pub after : Input → Text
after b = slice b.cmd b.cmd_cursor (b.cmd_len - b.cmd_cursor)

-- The cursor is in the command, which ends with a NUL inside the array.
pub record IsValid (size : ℕ) (b : Input) : Type 0 where
  pub cursor : b.cmd_cursor ≤ b.cmd_len
  pub room : b.cmd_len < size
  pub ended : b.cmd b.cmd_len ≡ 0

-- What a key does to the text before and after the cursor.
abbrev pub Edited : ℕ → Key → Input → Input → Type 0
Edited size (typed ch) b b' =
    (size ≤ b.cmd_len + 1 → b' ≡ b)
    × (b.cmd_len + 1 < size → (before b' ≡ before b ++ ch ∷ []) × (after b' ≡ after b))
Edited size back b b' =
    (b.cmd_cursor ≡ 0 → b' ≡ b)
    × (0 < b.cmd_cursor
        → (before b ≡ before b' ++ b.cmd (b.cmd_cursor - 1) ∷ []) × (after b' ≡ after b))
Edited size del b b' =
    (b.cmd_cursor ≡ b.cmd_len → b' ≡ b)
    × (b.cmd_cursor < b.cmd_len
        → (before b' ≡ before b) × (after b ≡ b.cmd b.cmd_cursor ∷ after b'))
Edited size left b b' =
    (b.cmd_cursor ≡ 0 → b' ≡ b)
    × (0 < b.cmd_cursor
        → let c = b.cmd (b.cmd_cursor - 1) in
          (before b ≡ before b' ++ c ∷ []) × (after b' ≡ c ∷ after b))
Edited size right b b' =
    (b.cmd_cursor ≡ b.cmd_len → b' ≡ b)
    × (b.cmd_cursor < b.cmd_len
        → let c = b.cmd b.cmd_cursor in (before b' ≡ before b ++ c ∷ []) × (after b ≡ c ∷ after b'))

module _ (size : ℕ) (b : Input) (v : IsValid size b) where
  pub insert_char-IsValid : (ch : ℕ) → IsValid size (insert_char size ch b)
  unfolding insert_char
  insert_char-IsValid ch = ground arith

  pub backspace-IsValid : IsValid size (backspace b)
  unfolding backspace
  backspace-IsValid = ground arith

  pub delete-IsValid : IsValid size (delete b)
  unfolding delete
  delete-IsValid = ground arith

  pub arrow_left-IsValid : IsValid size (arrow_left b)
  unfolding arrow_left
  arrow_left-IsValid = ground arith

  pub arrow_right-IsValid : IsValid size (arrow_right b)
  unfolding arrow_right
  arrow_right-IsValid = ground arith

  insert_char-Edited : (ch : ℕ) → Edited size (typed ch) b (insert_char size ch b)
  unfolding insert_char
  insert_char-Edited ch =
      let c = b.cmd_cursor in
      let n = b.cmd_len - c in
      let cmd' = update (update (shift_up n c b.cmd) c ch) (b.cmd_len + 1) 0 in
      let at : (k : ℕ)
          → k ≤ b.cmd_len
          → cmd' k ≡ (if ltb k c then b.cmd k else (if k == c then ch else b.cmd (k - 1))) =
        λ k lt. ground (arith, shift_up_lem n c b.cmd k) in
      let first : slice cmd' 0 c ≡ before b =
        slice-eq cmd' b.cmd 0 0 c (λ k lt. ground (arith, at k)) in
      let last : slice cmd' (c + 1) n ≡ after b =
        slice-eq cmd' b.cmd (c + 1) c n (λ k lt. ground (arith, at (c + 1 + k))) in
      let same : b.cmd_len + 1 - (c + 1) ≡ n = omega arith in
      (
        λ h. ground arith,
        λ h. (ground (arith, first, slice-add_one cmd' 0 c, at c), ground (arith, last)),
      )

  -- The array after a character is taken out at `from`.
  taken : ℕ → ℕ → ℕ
  taken from = update (shift_down (b.cmd_len - 1 - from) from b.cmd) (b.cmd_len - 1) 0

  taken_lem :
      (from k : ℕ)
      → from < b.cmd_len
      → k + 1 < b.cmd_len
      → taken from k ≡ (if ltb k from then b.cmd k else b.cmd (k + 1))
  unfolding taken
  taken_lem from k h lt = ground (arith, shift_down_lem (b.cmd_len - 1 - from) from b.cmd k)

  slice-taken :
      (from : ℕ)
      → from < b.cmd_len
      → (slice (taken from) 0 from ≡ slice b.cmd 0 from)
        × (slice (taken from) from (b.cmd_len - 1 - from)
            ≡ slice b.cmd (from + 1) (b.cmd_len - 1 - from))
  slice-taken from h = (
    slice-eq _ _ 0 0 from (λ k lt. ground (arith, taken_lem from k)),
    slice-eq _ _ from (from + 1) (b.cmd_len - 1 - from)
        (λ k lt. ground (arith, taken_lem from (from + k))),
  )

  backspace-Edited : Edited size back b (backspace b)
  unfolding backspace taken
  backspace-Edited = (
    λ h. ground arith,
    λ h. ground (arith, slice-taken (b.cmd_cursor - 1), slice-add_one b.cmd 0 (b.cmd_cursor - 1)),
  )

  delete-Edited : Edited size del b (delete b)
  unfolding delete taken
  delete-Edited = (
    λ h. ground arith,
    λ h.
        ground (
          arith,
          slice-taken b.cmd_cursor,
          slice_cons b.cmd b.cmd_cursor (b.cmd_len - b.cmd_cursor),
        ),
  )

  arrow_left-Edited : Edited size left b (arrow_left b)
  unfolding arrow_left
  arrow_left-Edited = (
    λ h. ground arith,
    λ h. ground (
      arith,
      slice-add_one b.cmd 0 (b.cmd_cursor - 1),
      slice_cons b.cmd (b.cmd_cursor - 1) (b.cmd_len - (b.cmd_cursor - 1)),
    ),
  )

  arrow_right-Edited : Edited size right b (arrow_right b)
  unfolding arrow_right
  arrow_right-Edited = (
    λ h. ground arith,
    λ h. ground (
      arith,
      slice-add_one b.cmd 0 b.cmd_cursor,
      slice_cons b.cmd b.cmd_cursor (b.cmd_len - b.cmd_cursor),
    ),
  )

  -- A key leaves the cursor in the command and the command with its NUL in the array. A character
  -- goes to the end of the text before the cursor, unless the array is full; backspace takes the
  -- last character before the cursor, delete the first after it, and the arrows move one character
  -- across the cursor, unless there is none; the rest of the text is as before.
  pub press_lem : (k : Key) → IsValid size (press size k b) × Edited size k b (press size k b)
  unfolding press
  press_lem (typed ch) = (insert_char-IsValid ch, insert_char-Edited ch)
  press_lem back = (backspace-IsValid, backspace-Edited)
  press_lem del = (delete-IsValid, delete-Edited)
  press_lem left = (arrow_left-IsValid, arrow_left-Edited)
  press_lem right = (arrow_right-IsValid, arrow_right-Edited)
