-- ===== src/Memory/Vmm/Init.antt =====
-- `vmm_init`: the address space that the kernel starts in.
use openkernel.Base.{
  ℕ, zero, suc, ◌+◌, ◌-◌, ◌*◌, ◌/◌, ◌%◌, ◌^◌, ◌≤◌, ◌<◌, ◌≡◌, ◌≢◌, refl, ap, ◌∙◌, some, arith,
}
use Prim.Native.Nat.{bit_and}
use openkernel.Base.Bits.Masks.{bit_and_page}
use openkernel.Memory.Pmm.{Pmm, pmm_get_bit, max_pages, pmm_alloc_page}
use openkernel.Memory.Pmm.Valid.{IsValid}
use openkernel.Memory.Pmm.Alloc.{Allocated, full, page, pmm_alloc_page_lem}
use openkernel.Memory.Vmm.{
  Vmm, map_page_unpaged, map_loop, heap_loop, clear_loop, init_directory, vmm_init, page_align_up,
}
use openkernel.Memory.Vmm.Tables.{pde, pte, IsSound}
use openkernel.Memory.Vmm.Fresh.{clear_loop_inside}
use openkernel.Memory.Vmm.Laws.{Entered, map_page_unpaged_lem}
use openkernel.Memory.Vmm.Loops.{
  Filled, entered, Filled-next, Filled-none, map_loop_lem, count_free_used,
}
use openkernel.Memory.Vmm.Space.{Booted, InOrder, six_loops-Booted}
use openkernel.Memory.Vmm.HeapPages.{heap_loop_lem}

-- A directory without an entry.
record Blank (free : ℕ) (t : Vmm) : Type 0 where
  sound : IsSound t
  empty : (u : ℕ) → u < 2 ^ 20 → pte t u ≡ 0
  left : t.pmm.free_pages + 1 ≡ free

abbrev started : Vmm → ℕ × Pmm → Vmm
started s (addr, pmm) =
    let dir = page_align_up addr in
    record { page_directory = dir; word_at = clear_loop 1024 dir s.word_at; pmm = pmm }

align_page : (f : ℕ) → f < max_pages → page_align_up (f * 4096) ≡ f * 4096
align_page f lt =
    let wrapped : (f * 4096 + 4096 + 2 ^ 32 - 1) % 2 ^ 32 ≡ f * 4096 + 4095 = omega arith in
    ap (λ a. bit_and a 0xfffff000) wrapped
    ∙ bit_and_page (f * 4096 + 4095) (omega arith)
    ∙ omega arith

init_directory_lem :
    (s : Vmm) {r : ℕ × Pmm}
    → Allocated s.pmm r
    → IsValid s.pmm
    → pmm_get_bit 0 s.pmm ≡ 1
    → 0 < s.pmm.free_pages
    → Blank s.pmm.free_pages (started s r)
init_directory_lem s (full used) valid null some_left =
    absurd (omega (arith, count_free_used s.pmm.page_count s.pmm used, valid.free))
init_directory_lem s (page {q} f inside free valid' pages less bits) valid null some_left =
    let t : Vmm = record {
      page_directory = f * 4096;
      word_at = clear_loop 1024 (f * 4096) s.word_at;
      pmm = q;
    } in
    let empty : (i : ℕ) → i < 1024 → pde t i ≡ 0 =
      λ i lt. clear_loop_inside 1024 (f * 4096) s.word_at i lt in
    let same : f * 4096 / 4096 ≡ f = omega arith in
    let here : pmm_get_bit f q ≡ 1 = ground (arith, bits f (omega (arith, inside, valid.count))) in
    let even : (i : ℕ) → i < 1024 → pde t i % 2 ≢ 1 = λ i lt odd. omega (arith, empty i lt, odd) in
    rw (align_page f (omega (arith, inside, valid.count))) (record {
      sound = record {
        pages = valid';
        aligned = omega arith;
        below = omega arith;
        used = ap (λ n. pmm_get_bit n q) same ∙ here;
        null_used = (ground (arith, bits 0 (omega arith)));
        small = λ i lt odd. absurd (even i lt odd);
        nonnull = λ i lt odd. absurd (even i lt odd);
        table_used = λ i lt odd. absurd (even i lt odd);
        table_apart = λ i lt odd. absurd (even i lt odd);
        tables_apart = λ i j lt lt' odd odd'. absurd (even i lt odd);
      };
      empty = λ u lt. (rw (empty (u / 1024) (omega arith)) refl);
      left = less;
    })

-- The loops, from a directory without an entry.
abbrev loops : Vmm → Vmm
loops s0 =
    let s1 = map_loop 1024 0 0 s0 in
    let s2 = map_loop 256 0x100000 0xc0000000 s1 in
    let s3 = map_page_unpaged 0xb8000 0xb8000 3 s2 in
    let s4 = map_loop 16 0xa0000 0xa0000 s3 in
    let s5 = map_loop 512 0xfd000000 0xfd000000 s4 in heap_loop 0x4000 0xe0000000 s5

-- The entry of the text buffer.
text_page :
    (n : ℕ) (s : Vmm)
    → IsSound s
    → n + 1 ≤ s.pmm.free_pages
    → let t = map_page_unpaged 0xb8000 0xb8000 3 s in
      Filled s 0xb8 1 (InOrder 0xb8) t × (n ≤ t.pmm.free_pages)
text_page n s sound enough =
    let t = map_page_unpaged 0xb8000 0xb8000 3 s in
    let step : Entered s 0xb8000 0xb8000 3 t =
      entered s 0xb8000 0xb8000 sound
        (map_page_unpaged_lem s 0xb8000 0xb8000 3 sound (omega arith) (omega arith))
        (omega arith) in
    (
      Filled-next s t t 0xb8000 0xb8000 0xb8 0 (InOrder 0xb8) (omega arith) (omega arith) step
          (ap some (omega arith)) (Filled-none t 0xb9 _ step.sound),
      omega (arith, step.spent, enough),
    )

-- One loop, after which `n` pages are left.
stage :
    (k f v phys virt n : ℕ) (s : Vmm)
    → phys / 4096 ≡ f
    → virt / 4096 ≡ v
    → v + k ≤ 2 ^ 20
    → IsSound s
    → n + ((v + k - 1) / 1024 - v / 1024 + 1) ≤ s.pmm.free_pages
    → Filled s v k (InOrder f) (map_loop k phys virt s)
      × (n ≤ (map_loop k phys virt s).pmm.free_pages)
stage zero f v phys virt n s e e' lt sound enough =
    let (filled, c) = map_loop_lem zero f v phys virt s e e' lt sound (omega arith) in
    (filled, omega (arith, c, enough))
stage (suc k) f v phys virt n s e e' lt sound enough =
    let (filled, c) = map_loop_lem (suc k) f v phys virt s e e' lt sound (omega arith) in
    (filled, omega (arith, c, enough))

loops-Booted :
    (s0 : Vmm)
    → IsSound s0
    → ((u : ℕ) → u < 2 ^ 20 → pte s0 u ≡ 0)
    → 16405 ≤ s0.pmm.free_pages
    → Booted (loops s0)
loops-Booted s0 sound empty many =
    let (f1, n1) = stage 1024 0 0 0 0 16404 s0 refl refl (omega arith) sound many in
    let s1 = map_loop 1024 0 0 s0 in
    let (f2, n2) =
      stage 256 0x100 0xc0000 0x100000 0xc0000000 16403 s1 refl refl (omega arith) f1.sound n1 in
    let s2 = map_loop 256 0x100000 0xc0000000 s1 in
    let (f3, n3) = text_page 16402 s2 f2.sound n2 in
    let s3 = map_page_unpaged 0xb8000 0xb8000 3 s2 in
    let (f4, n4) =
      stage 16 0xa0 0xa0 0xa0000 0xa0000 16401 s3 refl refl (omega arith) f3.sound n3 in
    let s4 = map_loop 16 0xa0000 0xa0000 s3 in
    let (f5, n5) =
      stage 512 0xfd000 0xfd000 0xfd000000 0xfd000000 16400 s4 refl refl (omega arith) f4.sound
        n4 in
    let s5 = map_loop 512 0xfd000000 0xfd000000 s4 in
    let f6 =
      heap_loop_lem 0x4000 0xe0000 0xe0000000 s5 refl (omega arith) f5.sound (omega (arith, n5)) in
    six_loops-Booted s0 s1 s2 s3 s4 s5 _ empty f1 f2 f3 f4 f5 f6

-- `vmm_init` with a valid page allocator, page 0 in use and 16406 pages free (64 MB for the heap, and
-- the directory and its tables). Afterwards the first 4 MB, the two regions of video memory and the
-- VBE frame buffer translate to themselves, the megabyte at KERNEL_VIRTUAL_BASE to the one at 1 MB,
-- every page of the heap to some page, every other page to nothing, and the tables are sound.
pub vmm_init_lem :
    (s : Vmm)
    → IsValid s.pmm
    → pmm_get_bit 0 s.pmm ≡ 1
    → 16406 ≤ s.pmm.free_pages
    → Booted (vmm_init s)
unfolding vmm_init init_directory
vmm_init_lem s valid null many =
    let b = init_directory_lem s (pmm_alloc_page_lem s.pmm valid) valid null (omega arith) in
    loops-Booted (started s (pmm_alloc_page s.pmm)) b.sound b.empty (omega (arith, b.left, many))
