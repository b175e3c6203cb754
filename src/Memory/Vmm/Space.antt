-- ===== src/Memory/Vmm/Space.antt =====
-- The address space that `vmm_init` builds, from its loops.
use openkernel.Base.{
  ℕ, ltb, leb, ◌&&◌, inl, inr, ◌+◌, ◌-◌, ◌/◌, ◌%◌, ◌^◌, ◌≤◌, ◌<◌, ◌≡◌, ◌≢◌, ◌⊎◌, sym, ap, ◌∙◌,
  Option, none, some, ◌==◌, if◌then◌else◌, arith, Bool-cases, ==_eq,
}
use openkernel.Memory.Vmm.{Vmm}
use openkernel.Memory.Vmm.Tables.{pte, translate, IsSound}
use openkernel.Memory.Vmm.Loops.{Filled}
use openkernel.Memory.Vmm.HeapPages.{Backed}

-- The address space of the kernel.
pub record Booted (t : Vmm) : Type 0 where
  pub sound : IsSound t
  pub identity : (v : ℕ) → v < 0x400 → translate t v ≡ some v
  pub kernel : (j : ℕ) → j < 0x100 → translate t (0xc0000 + j) ≡ some (0x100 + j)
  pub vbe : (j : ℕ) → j < 0x200 → translate t (0xfd000 + j) ≡ some (0xfd000 + j)
  pub heap : (j : ℕ) → j < 0x4000 → Backed j (translate t (0xe0000 + j))
  pub others :
      (u : ℕ)
      → u < 2 ^ 20
      → 0x400 ≤ u
      → u < 0xc0000 ⊎ 0xc0100 ≤ u
      → u < 0xe0000 ⊎ 0xe4000 ≤ u
      → u < 0xfd000 ⊎ 0xfd200 ≤ u
      → translate t u ≡ none

pub same_translate : (s t : Vmm) (u : ℕ) → pte t u ≡ pte s u → translate t u ≡ translate s u
same_translate s t u e = ap (λ w. if w % 2 == 0 then none else some (w / 4096)) e

-- The frames from `f` on, in order.
abbrev pub InOrder : ℕ → ℕ → Option ℕ → Type 0
InOrder f j o = o ≡ some (f + j)

-- A page of a range.
in_range :
    (s t : Vmm) (v k f u : ℕ)
    → Filled s v k (InOrder f) t
    → v ≤ u
    → u < v + k
    → translate t u ≡ some (f + (u - v))
in_range s t v k f u filled le lt =
    let at : v + (u - v) ≡ u = omega arith in
    ap (translate t) (sym at) ∙ filled.inside (u - v) (omega arith)

-- A page outside of a range.
out_range :
    {is : ℕ → Option ℕ → Type 0} (s t : Vmm) (v k u : ℕ)
    → Filled s v k is t
    → u < 2 ^ 20
    → u < v ⊎ v + k ≤ u
    → translate t u ≡ translate s u
out_range s t v k u filled small apart =
    same_translate s t u (filled.outside u small (λ j lt e. omega arith))

-- The six loops one after the other.
module _ (s0 s1 s2 s3 s4 s5 s6 : Vmm) (empty : (u : ℕ) → u < 2 ^ 20 → pte s0 u ≡ 0)
    (f1 : Filled s0 0 1024 (InOrder 0) s1) (f2 : Filled s1 0xc0000 256 (InOrder 0x100) s2)
    (f3 : Filled s2 0xb8 1 (InOrder 0xb8) s3) (f4 : Filled s3 0xa0 16 (InOrder 0xa0) s4)
    (f5 : Filled s4 0xfd000 512 (InOrder 0xfd000) s5) (f6 : Filled s5 0xe0000 16384 Backed s6) where
  after_text : (u : ℕ) → u < 2 ^ 20 → u < 0xe0000 → translate s6 u ≡ translate s4 u
  after_text u small low =
      out_range s5 s6 0xe0000 16384 u f6 small (inl low)
      ∙ out_range s4 s5 0xfd000 512 u f5 small (inl (omega arith))

  graphics : (u : ℕ) → u < 2 ^ 20 → u < 0xa0 ⊎ 0xb0 ≤ u → translate s4 u ≡ translate s3 u
  graphics u small out = out_range s3 s4 0xa0 16 u f4 small (omega arith)

  text : (u : ℕ) → u < 2 ^ 20 → u ≢ 0xb8 → translate s3 u ≡ translate s2 u
  text u small out = out_range s2 s3 0xb8 1 u f3 small (omega arith)

  identity_low : (v : ℕ) → v < 0x400 → translate s2 v ≡ some v
  identity_low v lt =
      out_range s1 s2 0xc0000 256 v f2 (omega arith) (inl (omega arith))
      ∙ in_range s0 s1 0 1024 0 v f1 (omega arith) (omega arith)
      ∙ ap some (omega arith)

  identity_text : (v : ℕ) → v < 0x400 → translate s3 v ≡ some v
  identity_text v lt = elim (Bool-cases (v == 0xb8)) [
    | inl e ↦
        let here : v ≡ 0xb8 = ==_eq v 0xb8 e in
        in_range s2 s3 0xb8 1 0xb8 v f3 (omega arith) (omega arith) ∙ ap some (omega arith)
    | inr e ↦ text v (omega arith) (ground arith) ∙ identity_low v lt
  ]

  identity_all : (v : ℕ) → v < 0x400 → translate s6 v ≡ some v
  identity_all v lt = elim (Bool-cases (leb 0xa0 v && ltb v 0xb0)) [
    | inl e ↦
        after_text v (omega arith) (omega arith)
        ∙ in_range s3 s4 0xa0 16 0xa0 v f4 (ground arith) (ground arith)
        ∙ ap some (ground arith)
    | inr e ↦
        let out : v < 0xa0 ⊎ 0xb0 ≤ v = ground arith in
        after_text v (omega arith) (omega arith) ∙ graphics v (omega arith) out ∙ identity_text v lt
  ]

  kernel_all : (j : ℕ) → j < 0x100 → translate s6 (0xc0000 + j) ≡ some (0x100 + j)
  kernel_all j lt =
      after_text (0xc0000 + j) (omega arith) (omega arith)
      ∙ graphics (0xc0000 + j) (omega arith) (inr (omega arith))
      ∙ text (0xc0000 + j) (omega arith) (λ e. omega arith)
      ∙ f2.inside j lt

  vbe_all : (j : ℕ) → j < 0x200 → translate s6 (0xfd000 + j) ≡ some (0xfd000 + j)
  vbe_all j lt =
      out_range s5 s6 0xe0000 16384 (0xfd000 + j) f6 (omega arith) (inr (omega arith))
      ∙ f5.inside j lt

  none_else :
      (u : ℕ)
      → u < 2 ^ 20
      → 0x400 ≤ u
      → u < 0xc0000 ⊎ 0xc0100 ≤ u
      → u < 0xe0000 ⊎ 0xe4000 ≤ u
      → u < 0xfd000 ⊎ 0xfd200 ≤ u
      → translate s6 u ≡ none
  none_else u small low out_kernel out_heap out_vbe =
      out_range s5 s6 0xe0000 16384 u f6 small out_heap
      ∙ out_range s4 s5 0xfd000 512 u f5 small out_vbe
      ∙ graphics u small (inr (omega arith))
      ∙ text u small (λ e. omega arith)
      ∙ out_range s1 s2 0xc0000 256 u f2 small out_kernel
      ∙ out_range s0 s1 0 1024 u f1 small (inr low)
      ∙ ap (λ w. if w % 2 == 0 then none else some (w / 4096)) (empty u small)

  pub six_loops-Booted : Booted s6
  six_loops-Booted = record {
    sound = f6.sound;
    identity = identity_all;
    kernel = kernel_all;
    vbe = vbe_all;
    heap = f6.inside;
    others = none_else;
  }
