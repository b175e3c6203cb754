-- ===== src/Fs/Listing/Cat.antt =====
-- What `fs_cat` prints of a file.
use openkernel.Base.{
  ℕ, ◌≤◌, ◌≡◌, ◌≢◌, refl, ap, ◌∙◌, inl, inr, true, false, none, List, [], ◌∷◌, ◌++◌, leb, ◌==◌,
  if◌then◌else◌, length, take, length-append, Text, arith, Bool-cases,
}
use mathlib.Core.List.{append_assoc}
use openkernel.Fs.{Fs, ok}
use openkernel.Fs.Strings.{ends_with_txt}
use openkernel.Fs.Nodes.{is_file}
use openkernel.Fs.Path.{fs_resolve}
use openkernel.Fs.Listing.{until_nul, cat_loop, fs_cat}

-- No byte is NUL.
abbrev pub NoNul : List ℕ → Type 0
NoNul [] = Unit
NoNul (c ∷ cs) = (c ≢ 0) × NoNul cs

abbrev pub joined : List Text → Text
joined [] = []
joined (l ∷ ls) = l ++ joined ls

abbrev pub without_newlines : List ℕ → List ℕ
without_newlines [] = []
without_newlines (c ∷ cs) = if c == 10 then without_newlines cs else c ∷ without_newlines cs

-- No line is longer than `w`.
abbrev pub Within : ℕ → List Text → Type 0
Within w [] = Unit
Within w (l ∷ ls) = (length l ≤ w) × Within w ls

until_nul_all : (line : List ℕ) → NoNul line → until_nul line ≡ line
unfolding until_nul
until_nul_all [] h = refl
until_nul_all (c ∷ cs) (h, hs) =
    let some_byte : (c == 0) ≡ false = ground arith in
    rw (some_byte) (ap (◌∷◌ c) (until_nul_all cs hs))

NoNul-snoc : (line : List ℕ) (c : ℕ) → NoNul line → c ≢ 0 → NoNul (line ++ (c ∷ []))
NoNul-snoc [] c h hc = (hc, tt)
NoNul-snoc (d ∷ ds) c (h, hs) hc = (h, NoNul-snoc ds c hs hc)

-- What a run of the loop prints.
abbrev Printed : List ℕ → List ℕ → List Text → Type 0
Printed cs line ls = (joined ls ≡ line ++ without_newlines cs) × Within 127 ls

cat_loop_lem :
    (cs line : List ℕ)
    → NoNul cs
    → NoNul line
    → length line ≤ 127
    → Printed cs line (cat_loop cs line)
unfolding cat_loop
cat_loop_lem [] [] h hl short = (refl, tt)
cat_loop_lem [] (d ∷ ds) h hl short =
    let filled : (length (d ∷ ds) == 0) ≡ false = ground arith in
    rw (filled, until_nul_all (d ∷ ds) hl) (refl, (short, tt))
cat_loop_lem (c ∷ cs) line (hc, hs) hl short = elim (Bool-cases (c == 10)) [
  | inl e ↦
      let (all, within) = cat_loop_lem cs [] hs tt (omega arith) in
      rw (e, until_nul_all line hl) (ap (◌++◌ line) all, (short, within))
  | inr e ↦ elim (Bool-cases (leb 127 (length line))) [
    | inl f ↦
        let (all, within) = cat_loop_lem cs (c ∷ []) hs (hc, tt) (omega arith) in
        rw (e, f, until_nul_all line hl) (ap (◌++◌ line) all, (short, within))
    | inr f ↦
        let (all, within) =
          cat_loop_lem cs (line ++ (c ∷ [])) hs (NoNul-snoc line c hl hc)
            (ground (arith, length-append line (c ∷ []))) in
        rw (e, f) (all ∙ append_assoc line (c ∷ []) (without_newlines cs), within)
  ]
]

-- `fs_cat` on a path to a .txt file that is not empty and holds no NUL: it succeeds, the lines that it
-- prints are, put together, the bytes of the file but the newlines, and each has at most 127 bytes.
pub fs_cat_lem :
    (path : Text) (fs : Fs) (id : ℕ)
    → fs_resolve fs.nodes fs.cwd path false ≡ ok id
    → is_file (fs.nodes id).kind ≡ true
    → ends_with_txt (fs.nodes id).name ≡ true
    → (fs.nodes id).size ≢ 0
    → NoNul (take (fs.nodes id).size (fs.nodes id).bytes)
    → (ls : List Text) × (fs_cat path fs ≡ (none, ls))
      × (joined ls ≡ without_newlines (take (fs.nodes id).size (fs.nodes id).bytes))
      × Within 127 ls
unfolding fs_cat
fs_cat_lem path fs id found kind name filled no_nul =
    let bytes = take (fs.nodes id).size (fs.nodes id).bytes in
    let some_bytes : ((fs.nodes id).size == 0) ≡ false = ground arith in
    let (all, within) = cat_loop_lem bytes [] no_nul tt (omega arith) in
    (cat_loop bytes [], rw (found, kind, name, some_bytes, fs_cat) refl, all, within)
