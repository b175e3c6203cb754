-- ===== src/Base/Bits.antt =====
-- Bits of a number, and what the bitwise operations of C do to each of them.
pub mod Masks
use Prim.Native.Nat.{ℕ, zero, suc, ◌+◌, ◌-◌, ◌*◌, ◌/◌, ◌%◌, ◌^◌, ◌≤◌, ◌<◌, min, max}
use Prim.Native.Nat.{digits, bitwise, differ, bit_and, bit_or, bit_xor}
use Prim.Native.Nat.{bit_and-bitwise, bit_or-bitwise, bit_xor-bitwise}
use mathlib.Core.Path.{◌≡◌, refl, ap, sym, ◌∙◌}
use native.Mathlib.Nat.{pow-suc, one-le-pow, mod-lt, mod-add-div', mod-eq_of_lt}
use native.Mathlib.Nat.{add-mul-mod_self_right, pow-succ', div-div-eq-div-mul}
use native.Mathlib.Omega.{arith}
use openkernel.Base.Tests.{◌==◌, if◌then◌else◌, ltb}

-- bit `k` of `a`, counted from the lowest
pub bit : ℕ → ℕ → ℕ
bit zero a = a % 2
bit (suc k) a = bit k (a / 2)

pub bit-lt : (k a : ℕ) → bit k a < 2
unfolding bit
bit-lt zero a = omega arith
bit-lt (suc k) a = bit-lt k (a / 2)

-- The three native operations are instances of one recursion on digits.
module _ (z : ℕ → ℕ) (f : ℕ → ℕ → ℕ) where
  -- Fuel beyond the number itself makes no difference.
  same_digits : (y x k l : ℕ) → x ≤ k → x ≤ l → digits z f k x y ≡ digits z f l x y
  same_digits y zero zero zero _ _ = refl
  same_digits y zero zero (suc l) _ _ = refl
  same_digits y zero (suc k) zero _ _ = refl
  same_digits y zero (suc k) (suc l) _ _ = refl
  same_digits y (suc x) zero l h _ = absurd (omega arith)
  same_digits y (suc x) (suc k) zero _ h = absurd (omega arith)
  same_digits y (suc x) (suc k) (suc l) h h' =
      let rest = same_digits (y / 2) (suc x / 2) k l (omega arith) (omega arith) in
      ap (λ t. t * 2 + f (suc x % 2) (y % 2)) rest

  bitwise_step :
      ((b : ℕ) → z b ≡ z (b / 2) * 2 + f 0 (b % 2))
      → (a b : ℕ) → bitwise z f a b ≡ bitwise z f (a / 2) (b / 2) * 2 + f (a % 2) (b % 2)
  bitwise_step base zero b = base b
  bitwise_step base (suc a) b =
      ap (λ t. t * 2 + f (suc a % 2) (b % 2))
        (same_digits (b / 2) (suc a / 2) a (suc a / 2) (omega arith) (omega arith))

  -- Bit by bit, the operation is `f`.
  bit-bitwise :
      ((b : ℕ) → z b ≡ z (b / 2) * 2 + f 0 (b % 2))
      → ((x y : ℕ) → x < 2 → y < 2 → f x y < 2)
      → (k a b : ℕ) → bit k (bitwise z f a b) ≡ f (bit k a) (bit k b)
  unfolding bit
  bit-bitwise base small zero a b =
      omega (arith, bitwise_step base a b, small (a % 2) (b % 2) (omega arith) (omega arith))
  bit-bitwise base small (suc k) a b =
      ap (bit k)
        (omega (arith, bitwise_step base a b, small (a % 2) (b % 2) (omega arith) (omega arith)))
      ∙ bit-bitwise base small k (a / 2) (b / 2)

pub bit-and : (k a b : ℕ) → bit k (bit_and a b) ≡ min (bit k a) (bit k b)
bit-and k a b =
    ap (bit k) (bit_and-bitwise a b)
    ∙ bit-bitwise (λ b. zero) min (λ b. omega arith) (λ x y p q. omega arith) k a b

pub bit-or : (k a b : ℕ) → bit k (bit_or a b) ≡ max (bit k a) (bit k b)
bit-or k a b =
    ap (bit k) (bit_or-bitwise a b)
    ∙ bit-bitwise (λ b. b) max (λ b. omega arith) (λ x y p q. omega arith) k a b

differ-lt : (x y : ℕ) → x < 2 → y < 2 → differ x y < 2
differ-lt zero y p q = q
differ-lt (suc zero) zero p q = omega arith
differ-lt (suc zero) (suc zero) p q = omega arith
differ-lt (suc zero) (suc (suc y)) p q = absurd (omega arith)
differ-lt (suc (suc x)) y p q = absurd (omega arith)

pub bit-xor : (k a b : ℕ) → bit k (bit_xor a b) ≡ differ (bit k a) (bit k b)
bit-xor k a b =
    ap (bit k) (bit_xor-bitwise a b)
    ∙ bit-bitwise (λ b. b) differ (λ b. omega arith) differ-lt k a b

bit-zero : (k : ℕ) → bit k 0 ≡ 0
unfolding bit
bit-zero zero = refl
bit-zero (suc k) = bit-zero k

-- `1 << j`
pub bit-pow : (k j : ℕ) → bit k (2 ^ j) ≡ (if j == k then 1 else 0)
unfolding bit
bit-pow zero zero = refl
bit-pow zero (suc j) = ground (arith, pow-suc 2 j)
bit-pow (suc k) zero = ground (arith, bit-zero k)
bit-pow (suc k) (suc j) =
    let half : 2 ^ suc j / 2 ≡ 2 ^ j = omega (arith, pow-suc 2 j) in
    ground (arith, ap (bit k) half, bit-pow k j)

-- `(1 << n) - 1`
pub bit-mask : (k n : ℕ) → bit k (2 ^ n - 1) ≡ (if ltb k n then 1 else 0)
unfolding bit
bit-mask k zero = ground (arith, bit-zero k)
bit-mask zero (suc n) = ground (arith, pow-suc 2 n, one-le-pow n 2)
bit-mask (suc k) (suc n) =
    let half : (2 ^ suc n - 1) / 2 ≡ 2 ^ n - 1 = omega (arith, pow-suc 2 n, one-le-pow n 2) in
    ground (arith, ap (bit k) half, bit-mask k n)

and_step : (a b : ℕ) → bit_and a b ≡ bit_and (a / 2) (b / 2) * 2 + min (a % 2) (b % 2)
and_step a b =
    let step = bitwise_step (λ b. zero) min (λ b. omega arith) a b in
    bit_and-bitwise a b ∙ step ∙ ap (λ t. t * 2 + min (a % 2) (b % 2)) (sym (bit_and-bitwise _ _))

and-zero_fuel : (n a : ℕ) → a ≤ n → bit_and a 0 ≡ 0
and-zero_fuel n zero h = refl
and-zero_fuel zero (suc a) h = absurd (omega arith)
and-zero_fuel (suc n) (suc a) h =
    omega (arith, and_step (suc a) 0, and-zero_fuel n (suc a / 2) (omega arith))

-- The lowest digit apart from the others.
mod-pow-suc : (k a : ℕ) → a % 2 ^ suc k ≡ a / 2 % 2 ^ k * 2 + a % 2
mod-pow-suc k a =
    let q = a / 2 / 2 ^ k in
    let r = a / 2 % 2 ^ k * 2 + a % 2 in
    let parts : a ≡ r + q * 2 ^ suc k =
      omega (arith, ap (λ (t : ℕ). q * t) (pow-suc 2 k), mod-add-div' (a / 2) (2 ^ k)) in
    let positive : 0 < 2 ^ k = omega (arith, one-le-pow k 2) in
    let small : r < 2 ^ suc k = omega (arith, pow-suc 2 k, mod-lt (a / 2) positive) in
    ap (λ t. t % 2 ^ suc k) parts ∙ add-mul-mod_self_right r q (2 ^ suc k) ∙ mod-eq_of_lt small

-- `a & ((1 << k) - 1)`
pub bit_and_mask : (k a : ℕ) → bit_and a (2 ^ k - 1) ≡ a % 2 ^ k
bit_and_mask zero a = omega (arith, and-zero_fuel a a (omega arith))
bit_and_mask (suc k) a =
    let half : (2 ^ suc k - 1) / 2 ≡ 2 ^ k - 1 = omega (arith, pow-suc 2 k, one-le-pow k 2) in
    let odd : (2 ^ suc k - 1) % 2 ≡ 1 = omega (arith, pow-suc 2 k, one-le-pow k 2) in
    and_step a (2 ^ suc k - 1)
    ∙ rw (half, odd, bit_and_mask k (a / 2)) (omega (arith, mod-pow-suc k a))

-- An even mask leaves the lowest digit out.
even_step : (a b : ℕ) → bit_and a (b * 2) ≡ bit_and (a / 2) b * 2
even_step a b =
    let half : b * 2 / 2 ≡ b = omega arith in
    let even : b * 2 % 2 ≡ 0 = omega arith in and_step a (b * 2) ∙ rw (half, even) (omega arith)

-- `a & ~15` on 32 bits
pub bit_and_align : (a : ℕ) → a < 2 ^ 32 → bit_and a 0xfffffff0 ≡ a / 16 * 16
bit_and_align a h = omega (
  arith,
  and_step a 0xfffffff0,
  and_step (a / 2) 0x7ffffff8,
  and_step (a / 2 / 2) 0x3ffffffc,
  and_step (a / 2 / 2 / 2) 0x1ffffffe,
  bit_and_mask 28 (a / 2 / 2 / 2 / 2),
)

bit-shift : (k a : ℕ) → a / 2 ^ k % 2 ≡ bit k a
unfolding bit
bit-shift zero a = omega arith
bit-shift (suc k) a =
    ap (λ t. a / t % 2) (pow-succ' 2 k)
    ∙ ap (λ t. t % 2) (sym (div-div-eq-div-mul a 2 (2 ^ k)))
    ∙ bit-shift k (a / 2)

-- `(a >> k) & 1`
pub shift-bit : (k a : ℕ) → bit_and (a / 2 ^ k) 1 ≡ bit k a
shift-bit k a = bit_and_mask 1 (a / 2 ^ k) ∙ bit-shift k a

-- `a & 0x80`
pub bit_and_sign : (a : ℕ) → bit_and a 0x80 ≡ a / 128 % 2 * 128
bit_and_sign a =
    let four : bit_and a 0x80 ≡ bit_and (a / 2 / 2 / 2 / 2) 8 * 16 =
      even_step a 0x40
      ∙ ap (λ t. t * 2) (even_step (a / 2) 0x20)
      ∙ ap (λ t. t * 2 * 2) (even_step (a / 2 / 2) 0x10)
      ∙ ap (λ t. t * 2 * 2 * 2) (even_step (a / 2 / 2 / 2) 0x8)
      ∙ omega arith in
    let three : (b : ℕ) → bit_and b 8 ≡ b / 2 / 2 / 2 % 2 * 8 = λ b.
      even_step b 4
      ∙ ap (λ t. t * 2) (even_step (b / 2) 2)
      ∙ ap (λ t. t * 2 * 2) (even_step (b / 2 / 2) 1)
      ∙ ap (λ t. t * 2 * 2 * 2) (bit_and_mask 1 (b / 2 / 2 / 2))
      ∙ omega arith in
    let shifted : a / 2 / 2 / 2 / 2 / 2 / 2 / 2 ≡ a / 128 = omega arith in
    four ∙ ap (λ t. t * 16) (three (a / 2 / 2 / 2 / 2)) ∙ rw shifted (omega arith)

-- `a & (1 << k)`
pub bit_and_pow : (k a : ℕ) → bit_and a (2 ^ k) ≡ bit k a * 2 ^ k
unfolding bit
bit_and_pow zero a = bit_and_mask 1 a ∙ omega arith
bit_and_pow (suc k) a =
    ap (bit_and a) (pow-succ' 2 k ∙ omega arith)
    ∙ even_step a (2 ^ k)
    ∙ ap (λ t. t * 2) (bit_and_pow k (a / 2))
    ∙ omega (arith, ap (λ t. bit k (a / 2) * t) (pow-succ' 2 k))
