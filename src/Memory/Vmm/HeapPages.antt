-- ===== src/Memory/Vmm/HeapPages.antt =====
-- The loop of `vmm_init` that backs the heap with pages.
use openkernel.Base.{
  ℕ, zero, suc, false, ◌+◌, ◌*◌, ◌/◌, ◌%◌, ◌^◌, ◌≤◌, ◌<◌, ◌≡◌, ◌≢◌, ap, Option, some, ◌==◌,
  if◌then◌else◌, arith,
}
use openkernel.Memory.Pmm.{Pmm, pmm_get_bit, max_pages, page_size}
use openkernel.Memory.Pmm.Valid.{IsValid}
use openkernel.Memory.Pmm.Alloc.{Allocated, full, page, pmm_alloc_page_lem}
use openkernel.Memory.Vmm.{Vmm, map_page_unpaged, heap_loop}
use openkernel.Memory.Vmm.Tables.{pde, IsSound}
use openkernel.Memory.Vmm.Laws.{Entered, map_page_unpaged_lem}
use openkernel.Memory.Vmm.Loops.{
  new_tables, Filled, entered, new_tables_next, Filled-next, Filled-none, Filled-map,
  count_free_used,
}

-- A page that is taken from the allocator disturbs no table.
alloc-IsSound :
    (s : Vmm) (f : ℕ) (q : Pmm)
    → IsSound s
    → f < s.pmm.page_count
    → IsValid q
    → q.page_count ≡ s.pmm.page_count
    → ((j : ℕ) → j < max_pages → pmm_get_bit j q ≡ (if f == j then 1 else pmm_get_bit j s.pmm))
    → IsSound (record s { pmm = q })
alloc-IsSound s f q sound inside valid pages bits =
    let used : (g : ℕ) → g < s.pmm.page_count → pmm_get_bit g s.pmm ≡ 1 → pmm_get_bit g q ≡ 1 =
      λ g lt h. ground (arith, bits g (omega (arith, sound.pages.count))) in
    record {
      pages = valid;
      aligned = sound.aligned;
      below = omega (arith, sound.below);
      used = used _ sound.below sound.used;
      null_used = used 0 (omega (arith, sound.below)) sound.null_used;
      small = λ i lt odd. omega (arith, sound.small i lt odd);
      nonnull = sound.nonnull;
      table_used = λ i lt odd. used _ (sound.small i lt odd) (sound.table_used i lt odd);
      table_apart = sound.table_apart;
      tables_apart = sound.tables_apart;
    }

-- Some page of memory.
abbrev pub Backed : ℕ → Option ℕ → Type 0
Backed j o = (f : ℕ) × (o ≡ some f)

-- What a round of the loop does after the allocation.
abbrev round : ℕ → ℕ → Vmm → ℕ × Pmm → Vmm
round k virt s (phys, pmm) =
    let t = record s { pmm = pmm } in
    if phys == 0 then t else heap_loop k (virt + page_size) (map_page_unpaged phys virt 3 t)

heap_round :
    (k v virt : ℕ) (s : Vmm) {r : ℕ × Pmm}
    → ((t : Vmm)
        → IsSound t
        → new_tables t (v + 1) k + k ≤ t.pmm.free_pages
        → Filled t (v + 1) k Backed (heap_loop k (virt + page_size) t))
    → Allocated s.pmm r
    → virt / 4096 ≡ v
    → v + suc k ≤ 2 ^ 20
    → IsSound s
    → new_tables s v (suc k) + suc k ≤ s.pmm.free_pages
    → Filled s v (suc k) Backed (round k virt s r)
heap_round k v virt s ih (full used) e lt sound enough =
    absurd (omega (arith, count_free_used s.pmm.page_count s.pmm used, sound.pages.free))
heap_round k v virt s ih (page {q} f inside free valid pages less bits) e lt sound enough =
    let t = record s { pmm = q } in
    let nonzero : f ≢ 0 = λ z.
      let same = ap (λ n. pmm_get_bit n s.pmm) z in omega (arith, same, free, sound.null_used) in
    let some_page : (f * 4096 == 0) ≡ false = ground arith in
    let tables : IsSound t = alloc-IsSound s f q sound inside valid pages bits in
    let here : pde s (virt / 4096 / 1024) % 2 ≡ pde s (v / 1024) % 2 =
      ap (λ n. pde s (n / 1024) % 2) e in
    let u = map_page_unpaged (f * 4096) virt 3 t in
    let step : Entered t (f * 4096) virt 3 u =
      entered t (f * 4096) virt tables
        (map_page_unpaged_lem t (f * 4096) virt 3 tables (omega arith) (omega arith))
        (omega (arith, here, enough, less)) in
    let cost = new_tables_next t u (f * 4096) virt v k e step in
    let rest = ih u step.sound (omega (arith, cost, enough, less)) in
    let filled =
      Filled-next t u _ (f * 4096) virt v k Backed e (omega arith) step (f, ap some (omega arith))
        (Filled-map u _ (v + 1) k Backed (λ j. Backed (j + 1)) (λ j o h. h) rest) in
    rw some_page (record {
      sound = filled.sound;
      inside = filled.inside;
      outside = filled.outside;
      same_directory = filled.same_directory;
    })

pub heap_loop_lem :
    (k v virt : ℕ) (s : Vmm)
    → virt / 4096 ≡ v
    → v + k ≤ 2 ^ 20
    → IsSound s
    → new_tables s v k + k ≤ s.pmm.free_pages
    → Filled s v k Backed (heap_loop k virt s)
unfolding heap_loop
heap_loop_lem zero v virt s e lt sound enough = Filled-none s v Backed sound
heap_loop_lem (suc k) v virt s e lt sound enough =
    heap_round k v virt s
      (λ t sound' enough'.
        heap_loop_lem k (v + 1) (virt + page_size) t (omega arith) (omega arith) sound' enough')
      (pmm_alloc_page_lem s.pmm sound.pages) e lt sound enough
