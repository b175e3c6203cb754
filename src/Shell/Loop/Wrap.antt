-- ===== src/Shell/Loop/Wrap.antt =====
-- What becomes of a full line of the editor that holds no space.
use openkernel.Base.{ℕ, ◌+◌, ◌-◌, ◌≤◌, ◌<◌, ◌≡◌, none, [], ◌∷◌, ◌++◌, arith}
use openkernel.Shell.Input.{Input}
use openkernel.Shell.Input.Slices.{slice, slice-eq, slice-add_one}
use openkernel.Shell.Loop.{cmd_buffer_size, last_space, break_at, cut_at, carry_over}

module _ (avail ch : ℕ) (b : Input) (some_room : 1 ≤ avail) (full : avail ≤ b.cmd_len)
    (room : b.cmd_len < cmd_buffer_size) (unbroken : last_space avail b.cmd ≡ none) where
  at_end : break_at avail b.cmd ≡ avail - 1
  unfolding break_at
  at_end = rw (unbroken, break_at)

  -- A line of the editor that is full and has no space among its first `avail` characters is broken
  -- at the last of these: the part that is executed ends before that character, where the NUL is
  -- put, and the part that is carried over starts after it, so the character is lost.
  pub carry_over_loses :
      (slice (cut_at (break_at avail b.cmd) b).cmd 0 avail ≡ slice b.cmd 0 (avail - 1) ++ 0 ∷ [])
      × (slice
            (carry_over (break_at avail b.cmd) ch (cut_at (break_at avail b.cmd) b)).cmd
            0
            (b.cmd_len - avail + 1)
          ≡ slice b.cmd avail (b.cmd_len - avail) ++ ch ∷ [])
  unfolding cut_at carry_over
  carry_over_loses =
      let k = avail - 1 in
      let cut = cut_at k b in
      let rest = b.cmd_len - avail in
      let whole : avail ≡ k + 1 = omega arith in
      let first = slice-eq cut.cmd b.cmd 0 0 k (λ i lt. ground arith) in
      let carried = (carry_over k ch cut).cmd in
      let moved = slice-eq carried b.cmd 0 avail rest (λ i lt. ground arith) in
      let last : carried rest ≡ ch = ground arith in
      rw at_end (
        ground (arith, whole, first, slice-add_one cut.cmd 0 k),
        ground (arith, moved, last, slice-add_one carried 0 rest),
      )
