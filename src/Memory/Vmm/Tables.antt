-- ===== src/Memory/Vmm/Tables.antt =====
-- The tables as a map from virtual to physical addresses, and the states in which they are sound.
use openkernel.Base.{ℕ, ◌+◌, ◌*◌, ◌/◌, ◌%◌, ◌<◌, ◌≡◌, ◌≢◌, Option, none, some, ◌==◌, if◌then◌else◌}
use openkernel.Memory.Pmm.{pmm_get_bit}
use openkernel.Memory.Pmm.Valid.{IsValid}
use openkernel.Memory.Vmm.{Vmm}

-- The word of the directory for the region `i` of 4 MB.
abbrev pub pde : Vmm → ℕ → ℕ
pde s i = s.word_at (s.page_directory + 4 * i)

-- The word of the table for the page number `v`, 0 when there is no table.
abbrev pub pte : Vmm → ℕ → ℕ
pte s v =
    let entry = pde s (v / 1024) in
    if entry % 2 == 0 then 0 else s.word_at (entry / 4096 * 4096 + 4 * (v % 1024))

-- The physical page that the processor reads for the virtual page `v`.
abbrev pub translate : Vmm → ℕ → Option ℕ
translate s v = let entry = pte s v in if entry % 2 == 0 then none else some (entry / 4096)

-- The directory and the tables stand on pages of their own, which the page allocator has marked
-- as used. Page 0 is used too, since its address is NULL.
pub record IsSound (s : Vmm) : Type 0 where
  pub pages : IsValid s.pmm
  pub aligned : s.page_directory % 4096 ≡ 0
  pub below : s.page_directory / 4096 < s.pmm.page_count
  pub used : pmm_get_bit (s.page_directory / 4096) s.pmm ≡ 1
  pub null_used : pmm_get_bit 0 s.pmm ≡ 1
  pub small : (i : ℕ) → i < 1024 → pde s i % 2 ≡ 1 → pde s i / 4096 < s.pmm.page_count
  pub nonnull : (i : ℕ) → i < 1024 → pde s i % 2 ≡ 1 → 0 < pde s i / 4096
  pub table_used : (i : ℕ) → i < 1024 → pde s i % 2 ≡ 1 → pmm_get_bit (pde s i / 4096) s.pmm ≡ 1
  pub table_apart : (i : ℕ) → i < 1024 → pde s i % 2 ≡ 1 → pde s i / 4096 ≢ s.page_directory / 4096
  pub tables_apart :
      (i j : ℕ)
      → i < 1024
      → j < 1024
      → pde s i % 2 ≡ 1
      → pde s j % 2 ≡ 1
      → pde s i / 4096 ≡ pde s j / 4096
      → i ≡ j
