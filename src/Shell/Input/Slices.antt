-- ===== src/Shell/Input/Slices.antt =====
-- Parts of an array as lists, and what the two shifts do to each element.
use openkernel.Base.{
  ℕ, zero, suc, ◌+◌, ◌-◌, ◌<◌, ◌≡◌, refl, ◌&&◌, [], ◌∷◌, ◌++◌, ltb, leb, if◌then◌else◌, Text,
  update, arith,
}
use openkernel.Shell.Input.{shift_up, shift_down}

-- The `n` elements from `a` on.
unfoldable pub slice : (ℕ → ℕ) → ℕ → ℕ → Text
slice f a zero = []
slice f a (suc n) = f a ∷ slice f (a + 1) n

pub slice-eq :
    (f g : ℕ → ℕ) (a b n : ℕ)
    → ((k : ℕ) → k < n → f (a + k) ≡ g (b + k))
    → slice f a n ≡ slice g b n
unfolding slice
slice-eq f g a b zero h = refl
slice-eq f g a b (suc n) h =
    let later : (k : ℕ) → k < n → f (a + 1 + k) ≡ g (b + 1 + k) =
      λ k lt. ground (arith, h (suc k)) in
    let rest = slice-eq f g (a + 1) (b + 1) n later in ground (arith, rest, h 0)

pub slice-snoc : (f : ℕ → ℕ) (a n : ℕ) → slice f a (suc n) ≡ slice f a n ++ f (a + n) ∷ []
unfolding slice
slice-snoc f a zero = ground arith
slice-snoc f a (suc n) = ground (arith, slice-snoc f (a + 1) n)

pub slice-add_one : (f : ℕ → ℕ) (a n : ℕ) → slice f a (n + 1) ≡ slice f a n ++ f (a + n) ∷ []
slice-add_one f a n = ground (arith, slice-snoc f a n)

pub slice_cons : (f : ℕ → ℕ) (a n : ℕ) → 0 < n → slice f a n ≡ f a ∷ slice f (a + 1) (n - 1)
unfolding slice
slice_cons f a zero h = absurd (omega arith)
slice_cons f a (suc n) h = ground arith

pub shift_up_lem :
    (k cursor : ℕ) (f : ℕ → ℕ) (j : ℕ)
    → shift_up k cursor f j ≡ (if ltb cursor j && leb j (cursor + k) then f (j - 1) else f j)
unfolding shift_up
shift_up_lem zero cursor f j = ground arith
shift_up_lem (suc k) cursor f j =
    ground (arith, shift_up_lem k cursor (update f (cursor + suc k) (f (cursor + k))) j)

pub shift_down_lem :
    (k i : ℕ) (f : ℕ → ℕ) (j : ℕ)
    → shift_down k i f j ≡ (if leb i j && ltb j (i + k) then f (j + 1) else f j)
unfolding shift_down
shift_down_lem zero i f j = ground arith
shift_down_lem (suc k) i f j = ground (arith, shift_down_lem k (i + 1) (update f i (f (i + 1))) j)
