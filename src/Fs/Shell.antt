-- ===== src/Fs/Shell.antt =====
-- The file commands of the shell in src/kernel/fs.c. The lines that are emitted are a list, in
-- order; the last argument of an operation is the editor's session and the filesystem.
use openkernel.Base.{
  ℕ, zero, suc, ◌-◌, Bool, true, false, ◌&&◌, not, Option, none, some, List, [], ◌∷◌, ◌++◌, ◌==◌,
  if◌then◌else◌, length, drop, Text, codes,
}
use openkernel.Fs.{Error, Result, ok, err, Fs, max_path}
use openkernel.Fs.File.{fs_write_file, fs_append_file}
use openkernel.Fs.Strings.{streq}
use openkernel.Fs.Commands.{fs_cd, fs_mkdir, fs_touch, fs_rm}
use openkernel.Fs.Messages.{fs_strerror}
use openkernel.Fs.Listing.{add, fs_ls, fs_cat}
use openkernel.Fs.Editor.{Editor, fs_edit_begin, fs_edit_path}

abbrev pub cmd_text_max : ℕ
cmd_text_max = 4096

-- `fs_strncmp(a, verb, fs_strlen(verb)) == 0`
unfoldable pub starts_with : Text → Text → Bool
starts_with a [] = true
starts_with [] (v ∷ vs) = false
starts_with (c ∷ cs) (v ∷ vs) = (c == v) && starts_with cs vs

unfoldable pub skip_spaces : Text → Text
skip_spaces [] = []
skip_spaces (c ∷ cs) = let rest = skip_spaces cs in if c == b' ' then rest else c ∷ cs

-- `while (*cmd && *cmd != stop && i < room) out[i++] = *cmd++;` and what is left
unfoldable pub copy_until : ℕ → ℕ → Text → Text × Text
copy_until stop room [] = ([], [])
copy_until stop zero (c ∷ cs) = ([], c ∷ cs)
copy_until stop (suc k) (c ∷ cs) =
    let (out, rest) = copy_until stop k cs in if c == stop then ([], c ∷ cs) else (c ∷ out, rest)

abbrev pub quote : ℕ
quote = 34

-- The text of an argument in quotes; `none` for 0.
unfoldable pub parse_quoted_tail : Text → ℕ → Option Text
parse_quoted_tail cmd max = elim (skip_spaces cmd) [
  | [] ↦ none
  | c ∷ cs ↦
      let (out, rest) = copy_until quote (max - 1) cs in
      if not (c == quote)
      then none
      else elim rest [ [] ↦ none | d ∷ _ ↦ if d == quote then some out else none ]
]

-- The path and the text after a verb; `none` for 0.
unfoldable pub parse_path_and_rest : Text → Text → ℕ → Option (Text × Text)
parse_path_and_rest cmd verb max =
    let args = skip_spaces (drop (length verb) cmd) in
    let (path, after) = copy_until b' ' (max_path - 1) args in
    let tail = skip_spaces after in
    if not (starts_with cmd verb)
    then none
    else (if length path == 0
        then none
        else (if length tail == 0
            then some (path, [])
            else elim (parse_quoted_tail tail max) [ none ↦ none | some rest ↦ some (path, rest) ]))

unfoldable pub emit_err : Option Error → Text
emit_err e = add 63 (add 60 [] (codes "Error: ")) (fs_strerror e)

unfoldable pub fs_show_help : List Text
fs_show_help =
    codes "Filesystem commands:"
    ∷ codes "ls <path>              - List directory"
    ∷ codes "cd <path>              - Change directory"
    ∷ codes "pwd                    - Print working directory"
    ∷ codes "mkdir <path>           - Create directory"
    ∷ codes "touch <file.txt>       - Create empty text file"
    ∷ codes "rm <path>              - Remove file or empty directory"
    ∷ codes "cat <file.txt>         - Print file contents"
    ∷ codes "write <file.txt> \"t\"  - Create/overwrite text file"
    ∷ codes "append <file.txt> \"t\" - Append text to file"
    ∷ codes "edit <file.txt>        - Edit existing .txt file"
    ∷ []

-- Whether the command is one of these, the lines that it emits, and the state after it.
abbrev Done : Type 0
Done = Bool × List Text × Editor × Fs

-- What a listing emits, and then its error.
abbrev printed : Editor × Fs → Option Error × List Text → Done
printed (e, fs) (none, lines) = (true, lines, e, fs)
printed (e, fs) (some x, lines) = (true, lines ++ (emit_err (some x) ∷ []), e, fs)

-- The error of an operation, or the lines for its success.
abbrev reported : List Text → Editor → Result (Unit {0}) × Fs → Done
reported lines e (ok _, fs) = (true, lines, e, fs)
reported lines e (err x, fs) = (true, emit_err (some x) ∷ [], e, fs)

abbrev edit_help : Text
edit_help = codes "Edit mode. Commands: :save/:w, :q, :p, :e <n> [text], :e <n> (load line)"

abbrev begun : Option Error × Editor × Fs → Done
begun (some x, e, fs) = (true, emit_err (some x) ∷ [], e, fs)
begun (none, e, fs) = (true, edit_help ∷ fs_edit_path e ∷ [], e, fs)

-- The commands with an argument in quotes, and `edit`.
unfoldable pub handle_text_command : Text → Editor × Fs → Done
handle_text_command command (e, fs) =
    elim (parse_path_and_rest command (codes "write") cmd_text_max) [
      | some (path, rest) ↦ reported (codes "Written." ∷ []) e (fs_write_file path (some rest) 0 fs)
      | none ↦ elim (parse_path_and_rest command (codes "append") cmd_text_max) [
        | some (path, rest) ↦
            reported (codes "Appended." ∷ []) e (fs_append_file path (some rest) 0 fs)
        | none ↦
            if starts_with command (codes "edit ")
            then begun (fs_edit_begin (drop 5 command) (e, fs))
            else (false, [], e, fs)
      ]
    ]

unfoldable pub fs_handle_command : Text → Editor × Fs → Done
fs_handle_command command (e, fs) =
    let is = streq command in
    let verb = starts_with command in
    if is (codes "help --fs")
    then (true, fs_show_help, e, fs)
    else (if is (codes "pwd")
        then (true, fs.cwd_path ∷ [], e, fs)
        else (if verb (codes "ls ")
            then printed (e, fs) (fs_ls (skip_spaces (drop 3 command)) fs)
            else (if verb (codes "dir ")
                then printed (e, fs) (fs_ls (skip_spaces (drop 4 command)) fs)
                else (if verb (codes "cd ")
                    then reported [] e (fs_cd (drop 3 command) fs)
                    else (if verb (codes "mkdir ")
                        then reported (codes "Directory created." ∷ []) e
                            (fs_mkdir (drop 6 command) fs)
                        else (if verb (codes "touch ")
                            then reported (codes "File created." ∷ []) e
                                (fs_touch (drop 6 command) fs)
                            else (if verb (codes "rm ")
                                then reported (codes "Removed." ∷ []) e (fs_rm (drop 3 command) fs)
                                else (if verb (codes "cat ")
                                    then printed (e, fs) (fs_cat (drop 4 command) fs)
                                    else handle_text_command command (e, fs)))))))))
