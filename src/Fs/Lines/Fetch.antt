-- ===== src/Fs/Lines/Fetch.antt =====
-- `edit_fetch_line` and the count of lines, against the list of lines.
use openkernel.Base.{
  ℕ, zero, suc, ◌+◌, ◌-◌, ◌%◌, ◌^◌, ◌≤◌, ◌<◌, ◌≡◌, refl, sym, ap, ◌∙◌, inl, inr, true, false, ◌||◌,
  not, Option, none, some, List, [], ◌∷◌, ltb, ◌==◌, if◌then◌else◌, length, take, get_or, get_elem?,
  Text, arith, Bool-cases,
}
use openkernel.Fs.Lines.{skip_lines, line_end, edit_fetch_line, newlines, total_lines}

-- Put a byte in front of the first line.
abbrev cons_first : ℕ → List Text → List Text
cons_first c [] = (c ∷ []) ∷ []
cons_first c (l ∷ ls) = (c ∷ l) ∷ ls

-- The lines of a buffer: a newline ends a line, and a last line may go without one.
unfoldable pub lines : List ℕ → List Text
lines [] = []
lines (c ∷ cs) = if c == 10 then [] ∷ lines cs else cons_first c (lines cs)

lines_newline : (c : ℕ) (cs : List ℕ) → (c == 10) ≡ true → lines (c ∷ cs) ≡ [] ∷ lines cs
unfolding lines
lines_newline c cs e = rw e refl

lines_char : (c : ℕ) (cs : List ℕ) → (c == 10) ≡ false → lines (c ∷ cs) ≡ cons_first c (lines cs)
unfolding lines
lines_char c cs e = rw e refl

length-cons_first :
    (c : ℕ) (ls : List Text) → length (cons_first c ls) ≡ (if length ls == 0 then 1 else length ls)
length-cons_first c [] = refl
length-cons_first c (l ∷ ls) = ground arith

-- The last byte, with an end of the buffer counted as a newline.
last_byte : ℕ → List ℕ → ℕ
last_byte c [] = c
last_byte c (d ∷ ds) = last_byte d ds

get_last : (c : ℕ) (cs : List ℕ) → get_or (c ∷ cs) (length cs) 0 ≡ last_byte c cs
unfolding last_byte
get_last c [] = refl
get_last c (d ∷ ds) = get_last d ds

lines_some : (c : ℕ) (cs : List ℕ) → 0 < length (lines (c ∷ cs))
lines_some c cs = elim (Bool-cases (c == 10)) [
  | inl e ↦ let same = ap length (lines_newline c cs e) in omega arith
  | inr e ↦
      let same = ap length (lines_char c cs e) in
      let long = length-cons_first c (lines cs) in ground arith
]

length-lines_from :
    (c : ℕ) (cs : List ℕ)
    → length (lines (c ∷ cs)) ≡ newlines (c ∷ cs) + (if last_byte c cs == 10 then 0 else 1)
unfolding newlines last_byte
length-lines_from c [] = elim (Bool-cases (c == 10)) [
  | inl e ↦ ap length (lines_newline c [] e) ∙ unfold lines in ground arith
  | inr e ↦ ap length (lines_char c [] e) ∙ unfold lines in ground arith
]
length-lines_from c (d ∷ ds) =
    let rest = length-lines_from d ds in
    let positive = lines_some d ds in
    let last : last_byte c (d ∷ ds) ≡ last_byte d ds = refl in
    elim (Bool-cases (c == 10)) [
      | inl e ↦ ap length (lines_newline c (d ∷ ds) e) ∙ ground (arith, rest, positive, last)
      | inr e ↦
          ap length (lines_char c (d ∷ ds) e)
          ∙ length-cons_first c (lines (d ∷ ds))
          ∙ ground (arith, rest, positive, last)
    ]

-- `total` counts the lines.
length-lines : (c : ℕ) (cs : List ℕ) → length (lines (c ∷ cs)) ≡ total_lines (c ∷ cs)
unfolding total_lines
length-lines c cs =
    let at : length cs ≡ length (c ∷ cs) - 1 = omega arith in
    length-lines_from c cs
    ∙ ap (λ b. newlines (c ∷ cs) + (if b == 10 then 0 else 1)) (sym (get_last c cs))
    ∙ ap (λ i. newlines (c ∷ cs) + (if get_or (c ∷ cs) i 0 == 10 then 0 else 1)) at

head_cons :
    (c : ℕ) (ls : List Text) (l : Text)
    → get_elem? ls 0 ≡ some l
    → get_elem? (cons_first c ls) 0 ≡ some (c ∷ l)
head_cons c [] l h = cc
head_cons c (x ∷ ls) l h = cc

first_line : (c : ℕ) (cs : List ℕ) → get_elem? (lines (c ∷ cs)) 0 ≡ some (line_end (c ∷ cs))
unfolding line_end
first_line c [] = elim (Bool-cases (c == 10)) [
  | inl e ↦ ap (λ ls. get_elem? ls 0) (lines_newline c [] e) ∙ rw (e, line_end) refl
  | inr e ↦ ap (λ ls. get_elem? ls 0) (lines_char c [] e) ∙ unfold lines in rw (e, line_end) refl
]
first_line c (d ∷ ds) = elim (Bool-cases (c == 10)) [
  | inl e ↦ ap (λ ls. get_elem? ls 0) (lines_newline c (d ∷ ds) e) ∙ rw (e, line_end) refl
  | inr e ↦
      ap (λ ls. get_elem? ls 0) (lines_char c (d ∷ ds) e)
      ∙ head_cons c (lines (d ∷ ds)) (line_end (d ∷ ds)) (first_line d ds)
      ∙ rw (e, line_end) refl
]

later_line :
    (c : ℕ) (ls : List Text) (d : ℕ) → get_elem? (cons_first c ls) (suc d) ≡ get_elem? ls (suc d)
later_line c [] d = refl
later_line c (l ∷ ls) d = refl

-- What `edit_fetch_line` does with the line that is reached.
abbrev reached : ℕ → ℕ × List ℕ → Option Text
reached n (cur, rest) = if not (cur == n) || (length rest == 0) then none else some (line_end rest)

skip_lines_lem :
    (bytes : List ℕ) (cur n d : ℕ)
    → n ≡ cur + d
    → reached n (skip_lines cur n bytes) ≡ get_elem? (lines bytes) d
unfolding skip_lines
skip_lines_lem [] cur n d e = elim (Bool-cases (cur == n)) [
  | inl here ↦ unfold lines in rw here refl
  | inr away ↦ unfold lines in rw away refl
]
skip_lines_lem (c ∷ cs) cur n zero e =
    let stop : ltb cur n ≡ false = ground arith in
    let here : (cur == n) ≡ true = ground arith in
    let filled : (length (c ∷ cs) == 0) ≡ false = ground arith in
    rw (stop, here, filled) (sym (first_line c cs))
skip_lines_lem (c ∷ cs) cur n (suc d) e =
    let on : ltb cur n ≡ true = ground arith in
    elim (Bool-cases (c == 10)) [
      | inl nl ↦
          rw (on, nl) (skip_lines_lem cs (cur + 1) n d (omega arith))
          ∙ ap (λ ls. get_elem? ls (suc d)) (sym (lines_newline c cs nl))
      | inr not_nl ↦
          rw (on, not_nl) (skip_lines_lem cs cur n (suc d) e)
          ∙ sym (later_line c (lines cs) d)
          ∙ ap (λ ls. get_elem? ls (suc d)) (sym (lines_char c cs not_nl))
    ]

-- The part of a line that fits `max` bytes with the NUL.
abbrev pub copied : ℕ → Option Text → Option Text
copied max none = none
copied max (some l) = some (take (max - 1) l)

copied-reached :
    (max n : ℕ) (r : ℕ × List ℕ)
    → 1 ≤ max
    → max < 2 ^ 32
    → (if not (r.0 == n) || (length r.1 == 0)
        then none
        else some (take ((max + 2 ^ 32 - 1) % 2 ^ 32) (line_end r.1)))
      ≡ copied max (reached n r)
copied-reached max n (cur, rest) ge lt =
    let same : (max + 2 ^ 32 - 1) % 2 ^ 32 ≡ max - 1 = omega arith in
    rw same (elim (Bool-cases (not (cur == n) || (length rest == 0))) [
      | inl e ↦ rw e refl
      | inr e ↦ rw e refl
    ])

-- On a buffer that is not empty, `edit_fetch_line` for the line `n + 1`, with room for at least one
-- byte and fewer than 2^32, gives the line at the index `n` of the list of lines, cut to what fits, and -1 when the list has none there; and `total` is
-- the length of the list.
pub edit_fetch_line-lines :
    (n c max : ℕ) (cs : List ℕ)
    → 1 ≤ max
    → max < 2 ^ 32
    → (edit_fetch_line (suc n) (c ∷ cs) max ≡ copied max (get_elem? (lines (c ∷ cs)) n))
      × (total_lines (c ∷ cs) ≡ length (lines (c ∷ cs)))
unfolding edit_fetch_line
edit_fetch_line-lines n c max cs ge lt =
    let found = skip_lines_lem (c ∷ cs) 1 (suc n) n (omega arith) in
    let guard : ((length (c ∷ cs) == 0) || ltb (suc n) 1) ≡ false = ground arith in
    (
      rw guard (
          copied-reached max (suc n) (skip_lines 1 (suc n) (c ∷ cs)) ge lt ∙ ap (copied max) found),
      sym (length-lines c cs),
    )
