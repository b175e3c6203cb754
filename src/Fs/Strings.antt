-- ===== src/Fs/Strings.antt =====
-- The string helpers of src/kernel/fs.c, on C strings without their NUL.
use openkernel.Base.{
  ℕ, ◌+◌, List, ◌-◌, ◌≤◌, ◌≡◌, refl, Bool, true, false, ◌&&◌, ◌||◌, not, [], ◌∷◌, arith, ltb, ◌==◌,
  if◌then◌else◌, length, get_or, take, Text, codes, length-take,
}

-- `fs_streq`
unfoldable pub streq : Text → Text → Bool
streq [] [] = true
streq [] (b ∷ s) = false
streq (a ∷ r) [] = false
streq (a ∷ r) (b ∷ s) = (a == b) && streq r s

-- `fs_strcpy` into an array of `max` bytes
unfoldable pub strcpy : Text → ℕ → Text
strcpy src max = take (max - 1) src

unfoldable pub ends_with_txt : Text → Bool
ends_with_txt name =
    let len = length name in
    if ltb len 4
    then false
    else (get_or name (len - 4) 0 == b'.')
      && (get_or name (len - 3) 0 == b't')
      && (get_or name (len - 2) 0 == b'x')
      && (get_or name (len - 1) 0 == b't')

no_separator : Text → Bool
no_separator [] = true
no_separator (c ∷ cs) = not ((c == b'/') || (c == 0x5c)) && no_separator cs

unfoldable pub is_valid_name : Text → Bool
unfolding no_separator
is_valid_name [] = false
is_valid_name (c ∷ cs) =
    if streq (c ∷ cs) (codes ".") || streq (c ∷ cs) (codes "..")
    then false
    else no_separator (c ∷ cs)

pub streq_refl : (a : Text) → streq a a ≡ true
unfolding streq
streq_refl [] = refl
streq_refl (x ∷ a) = ground (arith, streq_refl a)

pub streq_eq : (a b : Text) → streq a b ≡ true → a ≡ b
unfolding streq
streq_eq [] [] h = refl
streq_eq [] (y ∷ b) h = cc
streq_eq (x ∷ a) [] h = cc
streq_eq (x ∷ a) (y ∷ b) h = ground (arith, streq_eq a b)

pub length-strcpy : (src : Text) (max : ℕ) → length (strcpy src max) ≤ max - 1
unfolding strcpy
length-strcpy src max = omega (arith, length-take (max - 1) src)

-- The NUL of a string is the first 0 of the list, or stands after it.
unfoldable pub fs_strlen : List ℕ → ℕ
fs_strlen [] = 0
fs_strlen (c ∷ cs) = let rest = fs_strlen cs in if c == 0 then 0 else rest + 1

pub fs_strlen-le : (bytes : List ℕ) → fs_strlen bytes ≤ length bytes
unfolding fs_strlen
fs_strlen-le [] = omega arith
fs_strlen-le (c ∷ cs) = ground (arith, fs_strlen-le cs)
