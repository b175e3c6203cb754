-- ===== src/Shell/Statements.antt =====
-- The statement in parentheses of `cmd.print`, and the lines that the commands of
-- src/kernel/kernel.c log.
pub mod Roundtrip
use Prim.Native.Nat.{bit_and}
use openkernel.Base.{
  ℕ, zero, suc, ◌+◌, ◌-◌, Bool, true, false, Option, none, some, List, [], ◌∷◌, ◌++◌, ltb, ◌==◌,
  if◌then◌else◌, length, Text, codes,
}
use openkernel.Fs.Shell.{skip_spaces, copy_until, quote}
use openkernel.Fs.Listing.{number}
use openkernel.Console.Format.{hex_loop}

-- `while (*command && *command != '(') command++;`
unfoldable pub skip_to_paren : Text → Text
skip_to_paren [] = []
skip_to_paren (c ∷ cs) = let rest = skip_to_paren cs in if c == b'(' then c ∷ cs else rest

-- `out` if the parenthesis closes after spaces; `none` for 0
unfoldable pub closed_by_paren : Text → Text → Option Text
closed_by_paren out rest = elim (skip_spaces rest) [
  | [] ↦ none
  | c ∷ _ ↦ if c == b')' then some out else none
]

-- After the quote that opens, or without one.
unfoldable pub quoted : Text → ℕ → Option Text
quoted cs max_len =
    let (out, rest) = copy_until quote (max_len - 1) cs in
    elim rest [ [] ↦ none | d ∷ after ↦ if d == quote then closed_by_paren out after else none ]

unfoldable pub unquoted : Text → ℕ → Option Text
unquoted cs max_len = let (out, rest) = copy_until b')' (max_len - 1) cs in closed_by_paren out rest

unfoldable pub extract_parenthesis_content : Text → ℕ → Option Text
extract_parenthesis_content command max_len = elim (skip_to_paren (skip_spaces command)) [
  | [] ↦ none
  | _ ∷ inner ↦ elim (skip_spaces inner) [
    | [] ↦ unquoted [] max_len
    | c ∷ cs ↦ if c == quote then quoted cs max_len else unquoted (c ∷ cs) max_len
  ]
]

abbrev pub show_help_main : List Text
show_help_main =
    codes "Available commands:"
    ∷ codes "help                - Show this help"
    ∷ codes "help --os           - Show OS-related commands"
    ∷ codes "clear               - Clear the console"
    ∷ codes "reboot              - Restart the system"
    ∷ codes "shutdown            - Power off the system"
    ∷ codes "gfx                 - Enter graphics mode"
    ∷ codes "layout <code>       - Set keyboard layout"
    ∷ codes "                       us, uk, it, fr, de, es, pt"
    ∷ codes "                       no, dk, se, fi, nl, be"
    ∷ codes "                       pl, cz, sk, hu, ro, tr"
    ∷ codes "cmd.print(\"msg\")    - Print a message"
    ∷ codes "help --fs           - Show filesystem commands"
    ∷ []

abbrev pub show_help_os : List Text
show_help_os =
    codes "OS commands:"
    ∷ codes "os.version          - Show kernel version"
    ∷ codes "os.bootinfo         - Show boot information"
    ∷ []

-- The variables `saved_*`; `none` where there is no name of a boot loader.
pub record BootInfo : Type 0 where
  pub saved_magic : ℕ
  pub saved_flags : ℕ
  pub saved_mem_lower : ℕ
  pub saved_mem_upper : ℕ
  pub saved_boot_loader : Option Text

-- The lines of `os.bootinfo`; `none` where the line of the boot loader does not fit its 64 bytes.
unfoldable pub bootinfo_lines : BootInfo → Option (List Text)
bootinfo_lines b =
    let first =
      codes "Magic: 0x"
      ++ hex_loop 8 b.saved_magic
      ++ codes " Flags: 0x"
      ++ hex_loop 8 b.saved_flags in
    let second =
      codes "Memory: "
      ++ number b.saved_mem_lower
      ++ codes " KB lower, "
      ++ number b.saved_mem_upper
      ++ codes " KB upper" in
    let lines = codes "=== openkernel Boot Info ===" ∷ first ∷ second ∷ [] in
    elim b.saved_boot_loader [
      | none ↦ some lines
      | some name ↦
          if ltb (8 + length name) 64 then some (lines ++ (codes "Loader: " ++ name) ∷ []) else none
    ]

-- What a `cmd.print` logs, from what follows the name.
unfoldable pub print_statement : Text → Text
print_statement [] = codes "Error: incomplete statement"
print_statement (p ∷ rest) = elim (extract_parenthesis_content (p ∷ rest) 128) [
  | none ↦ codes "Error: incomplete statement"
  | some [] ↦ codes "Error: incomplete statement"
  | some (c ∷ cs) ↦ c ∷ cs
]
