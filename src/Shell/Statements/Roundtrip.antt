-- ===== src/Shell/Statements/Roundtrip.antt =====
-- What `cmd.print` prints is what stands between its quotes.
use openkernel.Base.{
  ℕ, zero, suc, ◌≤◌, ◌≡◌, ◌≢◌, refl, ap, some, [], ◌∷◌, ◌++◌, length, Text, arith,
}
use openkernel.Fs.Shell.{skip_spaces, copy_until, quote}
use openkernel.Shell.Statements.{
  skip_to_paren, closed_by_paren, quoted, extract_parenthesis_content, print_statement,
}

-- The character does not occur in the text.
abbrev pub Lacks : ℕ → Text → Type 0
Lacks x [] = Unit
Lacks x (c ∷ cs) = (c ≢ x) × Lacks x cs

copy_until-Lacks :
    (stop room : ℕ) (msg rest : Text)
    → Lacks stop msg
    → length msg ≤ room
    → copy_until stop room (msg ++ stop ∷ rest) ≡ (msg, stop ∷ rest)
unfolding copy_until
copy_until-Lacks stop zero [] rest h l = refl
copy_until-Lacks stop (suc room) [] rest h l = ground arith
copy_until-Lacks stop zero (c ∷ cs) rest h l = absurd (omega arith)
copy_until-Lacks stop (suc room) (c ∷ cs) rest h l =
    ground (arith, copy_until-Lacks stop room cs rest h.1)

-- `k` spaces
unfoldable pub spaces : ℕ → Text → Text
spaces zero rest = rest
spaces (suc k) rest = b' ' ∷ spaces k rest

skip_spaces-spaces :
    (k : ℕ) (c : ℕ) (rest : Text) → c ≢ b' ' → skip_spaces (spaces k (c ∷ rest)) ≡ c ∷ rest
unfolding skip_spaces spaces
skip_spaces-spaces zero c rest h = ground arith
skip_spaces-spaces (suc k) c rest h = skip_spaces-spaces k c rest h

extract_lem :
    (i j k : ℕ) (msg rest : Text)
    → Lacks quote msg
    → length msg ≤ 127
    → extract_parenthesis_content
        (spaces i (b'(' ∷ spaces j (quote ∷ msg ++ quote ∷ spaces k (b')' ∷ rest))))
        128
      ≡ some msg
unfolding extract_parenthesis_content quoted skip_to_paren closed_by_paren
extract_lem i j k msg rest h l =
    let tail = spaces k (b')' ∷ rest) in
    rw
      (
        skip_spaces-spaces i b'(' (spaces j (quote ∷ msg ++ quote ∷ tail)) (omega arith),
        skip_spaces-spaces j quote (msg ++ quote ∷ tail) (omega arith),
        copy_until-Lacks quote 127 msg tail h l,
        skip_spaces-spaces k b')' rest (omega arith),
        extract_parenthesis_content,
        quoted,
        closed_by_paren,
      )
      (ap (λ r. some r.0) (copy_until-Lacks quote 127 msg tail h l))

-- With spaces around the parentheses or without, and whatever follows them, `cmd.print` logs the
-- text between the quotes, which holds no quote, is not empty and has at most 127 characters.
pub print_statement_lem :
    (i j k : ℕ) (c : ℕ) (cs rest : Text)
    → Lacks quote (c ∷ cs)
    → length (c ∷ cs) ≤ 127
    → print_statement
        (spaces i (b'(' ∷ spaces j (quote ∷ (c ∷ cs) ++ quote ∷ spaces k (b')' ∷ rest))))
      ≡ c ∷ cs
unfolding print_statement spaces
print_statement_lem zero j k c cs rest h l =
    rw (extract_lem zero j k (c ∷ cs) rest h l, print_statement)
print_statement_lem (suc i) j k c cs rest h l =
    rw (extract_lem (suc i) j k (c ∷ cs) rest h l, print_statement)
