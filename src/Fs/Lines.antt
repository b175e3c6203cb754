-- ===== src/Fs/Lines.antt =====
-- The loops of the line editor of src/kernel/fs.c over the bytes of its buffer.
pub mod Fetch
use openkernel.Base.{
  ℕ, zero, suc, ◌+◌, ◌-◌, ◌*◌, ◌/◌, ◌%◌, ◌^◌, Bool, true, false, ◌&&◌, ◌||◌, not, Option, none,
  some, List, [], ◌∷◌, ◌++◌, ltb, leb, ◌==◌, if◌then◌else◌, length, take, get_or, Text, codes,
}
use openkernel.Fs.Listing.{add, until_nul, number}

-- `while (pos < edit_len && cur < n)` of `edit_fetch_line`: the line that is reached and what is left
unfoldable pub skip_lines : ℕ → ℕ → List ℕ → ℕ × List ℕ
skip_lines cur n [] = (cur, [])
skip_lines cur n (c ∷ cs) =
    let rest = skip_lines (if c == 10 then cur + 1 else cur) n cs in
    if ltb cur n then rest else (cur, c ∷ cs)

-- The bytes up to the end of the line.
unfoldable pub line_end : List ℕ → List ℕ
line_end [] = []
line_end (c ∷ cs) = let rest = line_end cs in if c == 10 then [] else c ∷ rest

-- The line `n`, counted from 1, as it is copied into `max` bytes; `none` for -1.
unfoldable pub edit_fetch_line : ℕ → List ℕ → ℕ → Option Text
edit_fetch_line n bytes max =
    let (cur, rest) = skip_lines 1 n bytes in
    if (length bytes == 0) || ltb n 1
    then none
    else (if not (cur == n) || (length rest == 0)
        then none
        else some (take ((max + 2 ^ 32 - 1) % 2 ^ 32) (line_end rest)))

-- `ln = ln * 10 + (*p - '0')` over the digits: the number, as its 32-bit pattern, and what follows
unfoldable pub parse_number : ℕ → Text → ℕ × Text
parse_number ln [] = (ln, [])
parse_number ln (c ∷ cs) =
    let rest = parse_number ((ln * 10 + (c - b'0')) % 2 ^ 32) cs in
    if leb b'0' c && leb c b'9' then rest else (ln, c ∷ cs)

unfoldable pub newlines : List ℕ → ℕ
newlines [] = 0
newlines (c ∷ cs) = (if c == 10 then 1 else 0) + newlines cs

-- `total`, of a buffer that is not empty
unfoldable pub total_lines : List ℕ → ℕ
total_lines bytes = newlines bytes + (if get_or bytes (length bytes - 1) 0 == 10 then 0 else 1)

-- The loop of `:p`, with `buf` in the line buffer: only a line that a newline ends is printed.
unfoldable pub print_loop : List ℕ → ℕ → List ℕ → List Text
print_loop [] n buf = []
print_loop (c ∷ cs) n buf =
    let ends = c == 10 in
    let next = if ends then [] else (if ltb (length buf) 80 then buf ++ (c ∷ []) else buf) in
    let rest = print_loop cs (if ends then n + 1 else n) next in
    if ends then add 94 (number n ++ codes ": ") (until_nul buf) ∷ rest else rest

-- `while (pos < old_len && old[pos] != '\n')`, and what is left
unfoldable pub split_line : List ℕ → List ℕ × List ℕ
split_line [] = ([], [])
split_line (c ∷ cs) =
    let (line, rest) = split_line cs in if c == 10 then ([], c ∷ cs) else (c ∷ line, rest)

-- The loop of `fs_edit_display_content`, with `line` in the line buffer.
unfoldable pub display_loop : List ℕ → List ℕ → List Text
display_loop [] line = if length line == 0 then [] else until_nul line ∷ []
display_loop (c ∷ cs) line =
    let full = (c == 10) || leb 80 (length line) in
    let next = if c == 10 then [] else (if full then c ∷ [] else line ++ (c ∷ [])) in
    let rest = display_loop cs next in if full then until_nul line ∷ rest else rest
