-- ===== src/Memory/Vmm/Tests.antt =====
-- The theorems on the page tables, with paging on, on a machine with 128 MB.
use openkernel.Base.{
  ℕ, true, some, refl, ap, ◌∙◌, ◌+◌, ◌-◌, ◌*◌, ◌/◌, ◌<◌, ◌==◌, ◌&&◌, ltb, leb, if◌then◌else◌, ◌≡◌,
  arith,
}
use openkernel.Memory.Pmm.{Pmm, pmm_init, pmm_get_bit}
use openkernel.Memory.Pmm.Valid.{IsValid}
use openkernel.Memory.Pmm.Init.{pmm_init_lem}
use openkernel.Memory.Vmm.{Vmm}
use openkernel.Memory.Vmm.Tables.{pde, IsSound}
use openkernel.Memory.Vmm.Laws.{Mapped}
use openkernel.Memory.Vmm.Unmap.{Unmapped}
use openkernel.Memory.Vmm.Paging.{vmm_map_page, vmm_unmap_page}
use openkernel.Memory.Vmm.Paged.Laws.{vmm_map_page_lem, vmm_unmap_page_lem}

abbrev blank : Pmm
blank = record { bitmap = λ _. 0; page_count = 0; free_pages = 0; search_hint = 0 }

abbrev pages : Pmm
pages = pmm_init 0x200000 640 130048 blank

pages-IsValid : IsValid pages
pages-IsValid = (pmm_init_lem 0x200000 640 130048 blank).1

null_used : pmm_get_bit 0 pages ≡ 1
null_used =
    let (count, _, _, bits) = pmm_init_lem 0x200000 640 130048 blank in
    bits 0 (omega (arith, count))

-- Paging is on, with the directory on page 1 and one table on page 2, which maps the first 4 MB to
-- themselves.
abbrev identity : Vmm
identity = record {
  page_directory = 0x1000;
  word_at = λ a.
      if a == 0x1000
      then 0x2003
      else if leb 0x2000 a && ltb a 0x3000
      then (a - 0x2000) / 4 * 4096 + 3
      else 0;
  pmm = pages;
}

identity-IsSound : IsSound identity
identity-IsSound =
    let (count, _, _, bits) = pmm_init_lem 0x200000 640 130048 blank in
    let only : (i : ℕ) → i < 1024 → pde identity i ≡ (if i == 0 then 0x2003 else 0) =
      λ i lt. ground arith in
    record {
      pages = pages-IsValid;
      aligned = refl;
      below = omega (arith, count);
      used = bits 1 (omega (arith, count));
      null_used = null_used;
      small = λ i lt odd. ground (arith, count, only i lt);
      nonnull = λ i lt odd. ground (arith, only i lt);
      table_used = λ i lt odd.
          let frame : pde identity i / 4096 ≡ 2 = ground (arith, only i lt) in
          ap (λ f. pmm_get_bit f pages) frame ∙ bits 2 (omega (arith, count));
      table_apart = λ i lt odd. ground (arith, only i lt);
      tables_apart = λ i j lt lt' odd odd' same. ground (arith, only i lt, only j lt');
    }

vmm_map_page_lem_example :
    (t : Vmm) × (vmm_map_page true 0x5000000 0x3ff000 3 identity ≡ some t)
    × Mapped identity 0x5000000 0x3ff000 3 t
vmm_map_page_lem_example =
    vmm_map_page_lem true identity 0x5000000 0x3ff000 3 identity-IsSound (omega arith) (omega arith)
      (record { directory = refl; table = λ odd. refl; fresh = λ absent. absurd (omega arith) })

vmm_unmap_page_lem_example :
    (t : Vmm) × (vmm_unmap_page true 0xb8000 identity ≡ some t) × Unmapped identity 0xb8000 t
vmm_unmap_page_lem_example =
    vmm_unmap_page_lem true identity 0xb8000 identity-IsSound (omega arith) refl (λ odd. refl)
