-- ===== src/Console/Format.antt =====
-- `printk` of src/kernel/kernel.c. The arguments are a list; `none` stands for what C would not
-- define: an argument that is missing or of another kind, a format that ends in `%`, whose NUL the
-- code steps over, and a text that fills the buffer of 512 bytes beyond its last byte.
use Prim.Native.Nat.{bit_and}
use openkernel.Base.{
  ℕ, zero, suc, ◌+◌, ◌-◌, ◌*◌, ◌/◌, ◌^◌, true, false, ◌||◌, Option, none, some, List, [], ◌∷◌, ◌++◌,
  ltb, leb, ◌==◌, if◌then◌else◌, Text, codes, length,
}
use openkernel.Fs.Listing.{add, number}
use openkernel.Console.{Terminal, puts}

-- An `int` and an `unsigned int` are their 32-bit patterns.
pub data Arg : Type 0 where
  int : ℕ → Arg
  str : Text → Arg

-- `%d`, after what is in the buffer
unfoldable pub put_decimal : ℕ → Text → Text
put_decimal value buffer =
    if leb (2 ^ 31) value
    then add 511 (buffer ++ codes "-") (number (2 ^ 32 - value))
    else add 511 buffer (number value)

-- `hex[n]`
abbrev hex_digit : ℕ → ℕ
hex_digit n = if ltb n 10 then b'0' + n else b'a' + (n - 10)

-- `for (int i = 28; i >= 0; i -= 4)`, with `k` rounds left
unfoldable pub hex_loop : ℕ → ℕ → Text
hex_loop zero value = []
hex_loop (suc k) value =
    let rest = hex_loop k value in hex_digit (bit_and (value / 2 ^ (4 * k)) 0xf) ∷ rest

-- What follows a `%`: the buffer and the arguments after it.
unfoldable pub put_conversion : ℕ → List Arg → Text → Option (Text × List Arg)
put_conversion c (int value ∷ args) buffer =
    if c == b'd'
    then some (put_decimal value buffer, args)
    else (if c == b'x'
        then some (add 511 buffer (hex_loop 8 value), args)
        else (if c == b's'
            then none
            else (if c == b'%'
                then some (buffer ++ codes "%", int value ∷ args)
                else some (buffer ++ codes "%" ++ (c ∷ []), int value ∷ args))))
put_conversion c (str s ∷ args) buffer =
    if (c == b'd') || (c == b'x')
    then none
    else (if c == b's'
        then some (add 511 buffer s, args)
        else (if c == b'%'
            then some (buffer ++ codes "%", str s ∷ args)
            else some (buffer ++ codes "%" ++ (c ∷ []), str s ∷ args)))
put_conversion c [] buffer =
    if (c == b'd') || (c == b'x') || (c == b's')
    then none
    else (if c == b'%'
        then some (buffer ++ codes "%", [])
        else some (buffer ++ codes "%" ++ (c ∷ []), []))

-- `while (*format && buf_idx < 511)`; the fuel is one round for each byte of the format
unfoldable pub format_loop : ℕ → Text → List Arg → Text → Option Text
format_loop k [] args buffer = some buffer
format_loop zero (c ∷ cs) args buffer = none
format_loop (suc k) (c ∷ []) args buffer =
    if leb 511 (length buffer)
    then some buffer
    else (if c == b'%' then none else some (buffer ++ (c ∷ [])))
format_loop (suc k) (c ∷ d ∷ cs) args buffer =
    if leb 511 (length buffer) then some buffer else elim (c == b'%') [
      | false ↦ format_loop k (d ∷ cs) args (buffer ++ (c ∷ []))
      | true ↦ elim (put_conversion d args buffer) [
        | none ↦ none
        | some (longer, left) ↦ format_loop k cs left longer
      ]
    ]

-- The text that `printk` makes.
unfoldable pub formatted : Text → List Arg → Option Text
formatted format args = elim (format_loop (length format) format args []) [
  | none ↦ none
  | some buffer ↦ if ltb 511 (length buffer) then none else some buffer
]

unfoldable pub printk : Text → List Arg → Terminal → Option Terminal
printk format args t = elim (formatted format args) [ none ↦ none | some text ↦ some (puts text t) ]
