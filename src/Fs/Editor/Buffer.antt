-- ===== src/Fs/Editor/Buffer.antt =====
-- The buffer of the line editor on the heap.
use mathlib.Core.Path.{subst}
use openkernel.Base.{
  ℕ, ◌+◌, ◌≤◌, ◌<◌, ◌≡◌, ◌≢◌, refl, sym, inl, inr, true, false, Option, none, some, List, ◌++◌,
  arith, ltb, ◌==◌, if◌then◌else◌, Bool-cases, length, length-append,
}
use openkernel.Memory.Heap.{Heap, heap_base, header_size, align16, kfree}
use openkernel.Memory.Heap.Chain.{Cell, BlockAt, carve, release}
use openkernel.Memory.Heap.Live.{carve_other}
use openkernel.Memory.Heap.Laws.{
  Blocks, Malloc, BlockAt-free, none_fits, taken, kmalloc_lem, kfree_lem, align16_bounds,
}
use openkernel.Fs.{Error, no_space, max_file_size}
use openkernel.Fs.File.{grown_cap}
use openkernel.Fs.Contents.{grown_cap-enough}
use openkernel.Fs.Editor.{Editor, edit_buf_append}

-- The buffer is NULL and empty, or it is a block in use that holds `cap` bytes.
pub data Holds (e : Editor) (cs : List Cell) : Type 0 where
  null : e.buf ≡ 0 → e.cap ≡ 0 → Holds e cs
  block :
      (r t : ℕ) → e.buf ≡ r + header_size → BlockAt heap_base cs r t false → e.cap ≤ t → Holds e cs

pub record IsBuffer (e : Editor) (cs : List Cell) : Type 0 where
  pub holds : Holds e cs
  pub fits : length e.bytes ≤ e.cap
  pub bounded : e.cap ≤ max_file_size

-- What `edit_buf_append` leaves.
pub data Appended (text : List ℕ) (e : Editor) (cs : List Cell)
    : Option Error × Editor × Heap → Type 0 where
  refused : {h : Heap} → Blocks h cs → Appended text e cs (some no_space, e, h)
  done :
      {e' : Editor} {h : Heap} (ds : List Cell)
      → Blocks h ds
      → IsBuffer e' ds
      → e'.bytes ≡ e.bytes ++ text
      → ((a t : ℕ)
          → BlockAt heap_base cs a t false
          → e.buf ≢ a + header_size
          → BlockAt heap_base ds a t false)
      → Appended text e cs (none, e', h)

-- The branch with room.
same_block :
    (text : List ℕ) (e : Editor) (cs : List Cell)
    → IsBuffer e cs
    → length e.bytes + length text ≤ e.cap
    → IsBuffer (record e { bytes = e.bytes ++ text }) cs
same_block text e cs buffer room = record {
  holds = elim buffer.holds [
    | null no_buf no_cap ↦ null no_buf no_cap
    | block r t at live fits ↦ block r t at live fits
  ];
  fits = omega (arith, length-append e.bytes text, room);
  bounded = buffer.bounded;
}

-- The branch that moves the buffer.
module _ (text : List ℕ) (e : Editor) (cs : List Cell) (buffer : IsBuffer e cs) where
  abbrev size : ℕ
  size = grown_cap e.cap (length e.bytes + length text)

  moved :
      {p : ℕ} {h h' : Heap}
      → length e.bytes + length text ≤ max_file_size
      → e.cap < length e.bytes + length text
      → Blocks h cs
      → Malloc size h cs p h'
      → Appended text e cs (
          if p == 0 then (some no_space, e, h') else (
            none,
            record e { buf = p; bytes = e.bytes ++ text; cap = size },
            if e.buf == 0 then h' else kfree e.buf h',
          ))
  moved limit small blocks (none_fits _) = refused blocks
  moved {h' = h'} limit small blocks (taken r s fit after (t, at, le)) =
      let (enough, limit') = grown_cap-enough e.cap (length e.bytes + length text) limit in
      let (_, roomy, _) = align16_bounds size (omega arith) in
      let nonnull : (r + header_size == 0) ≡ false = ground arith in
      let apart : (a u : ℕ) → BlockAt heap_base cs a u false → a ≢ r =
        λ a u live e. BlockAt-free cs heap_base r s a u e fit.at live in
      let kept : (a u : ℕ)
          → BlockAt heap_base cs a u false
          → BlockAt heap_base (carve heap_base cs r (align16 size)) a u false =
        λ a u live. carve_other cs heap_base r (align16 size) a u false live (apart a u live) in
      let e' : Editor = record e { buf = r + header_size; bytes = e.bytes ++ text; cap = size } in
      let fits : length (e.bytes ++ text) ≤ size =
        omega (arith, length-append e.bytes text, enough) in
      elim buffer.holds [
        | null no_buf no_cap ↦
            let is_null : (e.buf == 0) ≡ true = ground arith in
            rw (nonnull, is_null)
              (done {e' = e'} {h = h'} (carve heap_base cs r (align16 size)) after
                (record { holds = block r t refl at (omega arith); fits = fits; bounded = limit' })
                refl (λ a u live ne. kept a u live))
        | block r0 t0 at_r0 live0 room ↦
            let not_null : (e.buf == 0) ≡ false = ground arith in
            let carved = carve heap_base cs r (align16 size) in
            let ds = release heap_base carved r0 in
            let (free, others) = kfree_lem h' carved r0 t0 false after (kept r0 t0 live0) in
            let tiled : Blocks (kfree e.buf h') ds =
              subst (λ p. Blocks (kfree p h') ds) (sym at_r0) free in
            rw (nonnull, not_null)
              (done {e' = e'} {h = kfree e.buf h'} ds tiled
                (record {
                  holds =
                      block r t refl (others r t at (λ z. apart r0 t0 live0 (sym z))) (omega arith);
                  fits = fits;
                  bounded = limit';
                })
                refl (λ a u live ne. others a u (kept a u live) (λ z. ne (omega arith))))
      ]

-- `edit_buf_append` with a sound buffer on a tiled heap. Either it answers FS_ERR_NO_SPACE and
-- leaves the buffer and the blocks as they were; or the text follows what was in the buffer, which
-- is sound again on the tiled heap, and every other block in use is where it was, with its size.
pub edit_buf_append_lem :
    (text : List ℕ) (e : Editor) (h : Heap) (cs : List Cell)
    → Blocks h cs
    → IsBuffer e cs
    → Appended text e cs (edit_buf_append text e h)
unfolding edit_buf_append
edit_buf_append_lem text e h cs blocks buffer =
    elim (Bool-cases (ltb max_file_size (length e.bytes + length text))) [
      | inl long ↦ rw long (refused blocks)
      | inr fits ↦
          let limit : length e.bytes + length text ≤ max_file_size = ground arith in
          elim (Bool-cases (ltb e.cap (length e.bytes + length text))) [
            | inr room ↦
                rw (fits, room)
                  (done cs blocks (same_block text e cs buffer (ground arith)) refl
                    (λ a t live ne. live))
            | inl small ↦
                let (p, h', found, outcome) = kmalloc_lem (size text e cs buffer) h cs blocks (
                  let (enough, _) = grown_cap-enough e.cap (length e.bytes + length text) limit in
                  ground arith) in
                rw (fits, small, found) (moved text e cs buffer limit (ground arith) blocks outcome)
          ]
    ]
