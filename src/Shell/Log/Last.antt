-- ===== src/Shell/Log/Last.antt =====
-- The graphics console shows the last 24 lines that were logged.
use mathlib.Core.List.{append-nil, append_assoc}
use openkernel.Base.{
  ℕ, zero, suc, ◌^◌, Option, true, update, ◌+◌, ◌-◌, ◌%◌, ◌≤◌, ◌<◌, ◌≡◌, refl, List, [], ◌∷◌, ◌++◌,
  ltb, ◌==◌, length, if◌then◌else◌, take, drop, get_elem?, map, none, some, length-append, Text,
  arith,
}
use openkernel.Shell.Log.{
  GfxLog, gfx_log_lines, gfx_log_cols, clear_gfx_log, append_gfx_log, lines_from, shown_lines,
}

-- The log after the messages of a list, the first one first.
unfoldable pub append_all : List Text → GfxLog → Option GfxLog
append_all [] l = some l
append_all (m ∷ ms) l = elim (append_gfx_log m l) [ none ↦ none | some l' ↦ append_all ms l' ]

-- The last `n` elements of a list.
abbrev pub last : ℕ → List Text → List Text
last n xs = drop (length xs - n) xs

-- The ring holds the last 24 lines of the list.
record Logged (ms : List Text) (l : GfxLog) : Type 0 where
  count : l.gfx_log_count ≡ length ms
  line :
      (i : ℕ)
      → i < length ms
      → length ms ≤ i + gfx_log_lines
      → get_elem? ms i ≡ some (l.gfx_log (i % gfx_log_lines))

get_elem?-snoc :
    (ms : List Text) (m : Text) (i : ℕ)
    → get_elem? (ms ++ m ∷ []) i
      ≡ (if ltb i (length ms) then get_elem? ms i else (if i == length ms then some m else none))
get_elem?-snoc [] m zero = refl
get_elem?-snoc [] m (suc i) = ground arith
get_elem?-snoc (x ∷ ms) m zero = ground arith
get_elem?-snoc (x ∷ ms) m (suc i) = ground (arith, get_elem?-snoc ms m i)

append-Logged :
    (ms : List Text) (m : Text) (l : GfxLog)
    → Logged ms l
    → length ms + 1 < 2 ^ 31
    → (l' : GfxLog) × (append_gfx_log m l ≡ some l')
      × Logged (ms ++ take (gfx_log_cols - 1) m ∷ []) l'
unfolding append_gfx_log
append-Logged ms m l h small =
    let longer : length (ms ++ take 63 m ∷ []) ≡ length ms + 1 = length-append ms _ in
    let counts : ltb (l.gfx_log_count + 1) (2 ^ 31) ≡ true = ground (arith, h.count) in
    (
      record {
        gfx_log = update l.gfx_log (l.gfx_log_count % gfx_log_lines) (take (gfx_log_cols - 1) m);
        gfx_log_count = l.gfx_log_count + 1;
      },
      rw (counts, append_gfx_log) refl,
      record {
        count = omega (arith, h.count, longer);
        line = λ i lt ge.
            ground
              (arith, h.count, longer, h.line i, get_elem?-snoc ms (take (gfx_log_cols - 1) m) i);
      },
    )

drop-get_elem? :
    (ms : List Text) (i : ℕ) (x : Text) → get_elem? ms i ≡ some x → drop i ms ≡ x ∷ drop (i + 1) ms
drop-get_elem? [] i x e = cc
drop-get_elem? (y ∷ ms) zero x e = ground arith
drop-get_elem? (y ∷ ms) (suc i) x e = ground (arith, drop-get_elem? ms i x)

drop_end : (ms : List Text) (i : ℕ) → length ms ≤ i → drop i ms ≡ []
drop_end [] zero h = refl
drop_end [] (suc i) h = refl
drop_end (y ∷ ms) zero h = absurd (omega arith)
drop_end (y ∷ ms) (suc i) h = drop_end ms i (omega arith)

lines_from-drop :
    (k i : ℕ) (ms : List Text) (l : GfxLog)
    → Logged ms l
    → i + k ≡ length ms
    → length ms ≤ i + gfx_log_lines
    → lines_from k i l ≡ drop i ms
unfolding lines_from
lines_from-drop zero i ms l h e g = ground (arith, drop_end ms i)
lines_from-drop (suc k) i ms l h e g = ground (
  arith,
  h.line i,
  drop-get_elem? ms i (l.gfx_log (i % gfx_log_lines)),
  lines_from-drop k (i + 1) ms l h,
)

shown-Logged : (ms : List Text) (l : GfxLog) → Logged ms l → shown_lines l ≡ last gfx_log_lines ms
unfolding shown_lines
shown-Logged ms l h =
    let n = length ms in
    let k = if ltb n gfx_log_lines then n else gfx_log_lines in
    ground (arith, h.count, lines_from-drop k (n - k) ms l h)

append_all-Logged :
    (ms shown : List Text) (l : GfxLog)
    → Logged shown l
    → length shown + length ms < 2 ^ 31
    → (l' : GfxLog) × (append_all ms l ≡ some l')
      × Logged (shown ++ map (take (gfx_log_cols - 1)) ms) l'
unfolding append_all
append_all-Logged [] shown l h small = (l, refl, rw append-nil h)
append_all-Logged (m ∷ ms) shown l h small =
    let (l1, e, h1) = append-Logged shown m l h (omega arith) in
    let longer = length-append shown (take 63 m ∷ []) in
    let (l2, e2, h2) =
      append_all-Logged ms (shown ++ take 63 m ∷ []) l1 h1 (omega (arith, longer)) in
    (l2, rw (e, append_all) e2, rw (← append_assoc shown (take 63 m ∷ []) (map (take 63) ms)) h2)

-- After clear_gfx_log and any messages, fewer than 2^31, the graphics console draws the last 24 of them, all if there
-- are no more, in the order in which they came, each cut to its first 63 characters.
pub shown_lines-append_all :
    (ms : List Text) (l : GfxLog)
    → length ms < 2 ^ 31
    → (l' : GfxLog) × (append_all ms (clear_gfx_log l) ≡ some l')
      × (shown_lines l' ≡ last gfx_log_lines (map (take (gfx_log_cols - 1)) ms))
unfolding clear_gfx_log
shown_lines-append_all ms l small =
    let (l', e, h) =
      append_all-Logged ms [] _ (record { count = refl; line = λ i lt ge. absurd (omega arith) })
        (omega arith) in
    (l', e, shown-Logged _ _ h)
