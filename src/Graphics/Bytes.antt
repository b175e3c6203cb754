-- ===== src/Graphics/Bytes.antt =====
-- The bytes of a frame buffer, and stores of 8, 16 and 32 bits to them, the lowest byte first.
use openkernel.Base.{ℕ, ◌+◌, ◌*◌, ◌/◌, ◌%◌, ◌^◌, ◌≤◌, ◌<◌, ◌≡◌, ◌⊎◌, update, arith}

abbrev pub Bytes : Type 0
Bytes = ℕ → ℕ

unfoldable pub store8 : Bytes → ℕ → ℕ → Bytes
store8 m a v = update m a (v % 2 ^ 8)

unfoldable pub store16 : Bytes → ℕ → ℕ → Bytes
unfolding store8
store16 m a v = store8 (store8 m a v) (a + 1) (v / 2 ^ 8)

unfoldable pub store32 : Bytes → ℕ → ℕ → Bytes
unfolding store16
store32 m a v = store16 (store16 m a v) (a + 2) (v / 2 ^ 16)

unfoldable pub load16 : Bytes → ℕ → ℕ
load16 m a = m a + m (a + 1) * 2 ^ 8

unfoldable pub load32 : Bytes → ℕ → ℕ
unfolding load16
load32 m a = load16 m a + load16 m (a + 2) * 2 ^ 16

pub store8-outside : (m : Bytes) (a v b : ℕ) → b < a ⊎ a < b → store8 m a v b ≡ m b
unfolding store8
store8-outside m a v b h = ground arith

pub store16-outside : (m : Bytes) (a v b : ℕ) → b < a ⊎ a + 2 ≤ b → store16 m a v b ≡ m b
unfolding store16
store16-outside m a v b h = ground arith

pub store32-outside : (m : Bytes) (a v b : ℕ) → b < a ⊎ a + 4 ≤ b → store32 m a v b ≡ m b
unfolding store32
store32-outside m a v b h = ground arith

pub load16-store16 : (m : Bytes) (a v : ℕ) → load16 (store16 m a v) a ≡ v % 2 ^ 16
unfolding load16 store16
load16-store16 m a v = ground arith

pub load32-store32 : (m : Bytes) (a v : ℕ) → load32 (store32 m a v) a ≡ v % 2 ^ 32
unfolding load32 store32
load32-store32 m a v = ground arith

pub load16-store16_apart :
    (m : Bytes) (a v b : ℕ) → b + 2 ≤ a ⊎ a + 2 ≤ b → load16 (store16 m a v) b ≡ load16 m b
unfolding load16
load16-store16_apart m a v b h =
    ground (arith, store16-outside m a v b, store16-outside m a v (b + 1))

pub load32-store32_apart :
    (m : Bytes) (a v b : ℕ) → b + 4 ≤ a ⊎ a + 4 ≤ b → load32 (store32 m a v) b ≡ load32 m b
unfolding load32
load32-store32_apart m a v b h = ground (
  arith,
  store32-outside m a v b,
  store32-outside m a v (b + 1),
  store32-outside m a v (b + 2),
  store32-outside m a v (b + 3),
)
