-- ===== src/Base/Bits/Masks.antt =====
-- Masks that keep the high digits, and numbers put together from high and low digits.
use Prim.Native.Nat.{ℕ, zero, suc, ◌+◌, ◌-◌, ◌*◌, ◌/◌, ◌%◌, ◌^◌, ◌≤◌, ◌<◌, max}
use Prim.Native.Nat.{bit_and, bit_or, bit_or-bitwise}
use mathlib.Core.Path.{◌≡◌, refl, ap, sym, ◌∙◌}
use native.Mathlib.Nat.{pow-suc, pow-succ', div-div-eq-div-mul}
use native.Mathlib.Omega.{arith}
use openkernel.Base.Bits.{bitwise_step, even_step, bit_and_mask}

pub or_step : (a b : ℕ) → bit_or a b ≡ bit_or (a / 2) (b / 2) * 2 + max (a % 2) (b % 2)
or_step a b =
    let step = bitwise_step (λ b. b) max (λ b. omega arith) a b in
    bit_or-bitwise a b ∙ step ∙ ap (λ t. t * 2 + max (a % 2) (b % 2)) (sym (bit_or-bitwise _ _))

or-zero_fuel : (n a : ℕ) → a ≤ n → bit_or a 0 ≡ a
or-zero_fuel n zero h = refl
or-zero_fuel zero (suc a) h = absurd (omega arith)
or-zero_fuel (suc n) (suc a) h =
    omega (arith, or_step (suc a) 0, or-zero_fuel n (suc a / 2) (omega arith))

pub or-zero : (a : ℕ) → bit_or a 0 ≡ a
or-zero a = or-zero_fuel a a (omega arith)

pub or-mod_two : (a b : ℕ) → bit_or a b % 2 ≡ max (a % 2) (b % 2)
or-mod_two a b = omega (arith, or_step a b)

div-pow : (k a : ℕ) → a / 2 ^ suc k ≡ a / 2 / 2 ^ k
div-pow k a = ap (λ (t : ℕ). a / t) (pow-succ' 2 k) ∙ sym (div-div-eq-div-mul a 2 (2 ^ k))

-- Digit by digit, the high digits apart from the others.
pub or-div : (k a b : ℕ) → bit_or a b / 2 ^ k ≡ bit_or (a / 2 ^ k) (b / 2 ^ k)
or-div zero a b =
    let one : (x : ℕ) → x / 1 ≡ x = λ x. omega arith in one (bit_or a b) ∙ rw (one a, one b) refl
or-div (suc k) a b =
    let half : bit_or a b / 2 ≡ bit_or (a / 2) (b / 2) = omega (arith, or_step a b) in
    rw (div-pow k (bit_or a b), div-pow k a, div-pow k b, half) (or-div k (a / 2) (b / 2))

times-pow : (x k : ℕ) → x * 2 ^ suc k ≡ x * 2 ^ k * 2
times-pow x k = omega (arith, ap (λ (t : ℕ). x * t) (pow-suc 2 k))

-- `a & (m << k)`
pub and-shifted : (k a m : ℕ) → bit_and a (m * 2 ^ k) ≡ bit_and (a / 2 ^ k) m * 2 ^ k
and-shifted zero a m =
    let one : m * 1 ≡ m = omega arith in
    let same : a / 1 ≡ a = omega arith in rw (one, same) (omega arith)
and-shifted (suc k) a m =
    ap (bit_and a) (times-pow m k)
    ∙ even_step a (m * 2 ^ k)
    ∙ ap (λ t. t * 2) (and-shifted k (a / 2) m)
    ∙ rw (div-pow k a) (sym (times-pow _ k))

-- `a & ~0xfff` on 32 bits
pub bit_and_page : (a : ℕ) → a < 2 ^ 32 → bit_and a 0xfffff000 ≡ a / 4096 * 4096
bit_and_page a h = and-shifted 12 a (2 ^ 20 - 1) ∙ omega (arith, bit_and_mask 20 (a / 2 ^ 12))
