-- ===== src/Memory/Pmm/Free.antt =====
-- `pmm_free_page`.
use openkernel.Base.{
  ℕ, ◌+◌, ◌-◌, ◌/◌, ◌≤◌, ◌<◌, ◌≡◌, ◌∙◌, ap, false, arith, ltb, leb, ◌==◌, if◌then◌else◌,
}
use openkernel.Memory.Pmm.{Pmm, max_pages, page_size, u32, pmm_set_bit, pmm_get_bit, pmm_free_page}
use openkernel.Memory.Pmm.Search.{count_free, count_free-le}
use openkernel.Memory.Pmm.Valid.{
  IsValid, written_bits, written_count, set_bit_free_pages, set_bit_search_hint,
}

-- The state after `pmm_free_page` of a page below the page count.
module _ (p : Pmm) (addr : ℕ) (v : IsValid p) (lt : addr / page_size < p.page_count) where
  abbrev freed : Pmm
  freed =
      let q = pmm_set_bit (addr / page_size) false p in
      record q {
        free_pages = u32 (q.free_pages + 1);
        search_hint =
            if ltb (addr / page_size) q.search_hint then addr / page_size else q.search_hint;
      }

  free_page_run : pmm_free_page addr p ≡ freed
  unfolding pmm_free_page
  free_page_run =
      let inside : leb p.page_count (addr / page_size) ≡ false = ground arith in rw inside

  freed_pages : freed.page_count ≡ p.page_count
  unfolding pmm_set_bit
  freed_pages = ground arith

  freed_bits :
      (j : ℕ)
      → j < max_pages
      → pmm_get_bit j freed ≡ (if addr / page_size == j then 0 else pmm_get_bit j p)
  freed_bits = written_bits (addr / page_size) false p _ _ (omega (arith, v.count))

  freed_count :
      count_free freed.page_count freed + (1 - pmm_get_bit (addr / page_size) p)
      ≡ count_free p.page_count p + 1
  freed_count =
      ap (λ n. count_free n freed + (1 - pmm_get_bit (addr / page_size) p)) freed_pages
      ∙ written_count (addr / page_size) false p _ _ (omega (arith, v.count)) p.page_count lt
          v.count

  freed_free_pages : freed.free_pages ≡ count_free p.page_count p + 1
  freed_free_pages = omega (
    arith,
    set_bit_free_pages (addr / page_size) false p,
    v.free,
    count_free-le p.page_count p,
    v.count,
  )

  freed_hint : freed.search_hint ≤ max_pages
  freed_hint = ground (arith, set_bit_search_hint (addr / page_size) false p, v.hint)

-- Freeing the address of a page in use makes that page and no other free, and keeps the state valid.
pub pmm_free_page_lem :
    (p : Pmm) (addr : ℕ)
    → IsValid p
    → addr / page_size < p.page_count
    → pmm_get_bit (addr / page_size) p ≡ 1
    → IsValid (pmm_free_page addr p)
      × ((j : ℕ)
          → j < max_pages
          → pmm_get_bit j (pmm_free_page addr p)
            ≡ (if addr / page_size == j then 0 else pmm_get_bit j p))
pmm_free_page_lem p addr v lt used = rw (free_page_run p addr v lt) (
  record {
    count = rw (freed_pages p addr v lt) v.count;
    hint = freed_hint p addr v lt;
    free = omega (arith, freed_free_pages p addr v lt, freed_count p addr v lt, used);
  },
  freed_bits p addr v lt,
)

-- Freeing a page that is free already adds one to `free_pages` although no page becomes free, so
-- the counter is wrong afterwards.
pub pmm_free_page_twice :
    (p : Pmm) (addr : ℕ)
    → IsValid p
    → addr / page_size < p.page_count
    → pmm_get_bit (addr / page_size) p ≡ 0
    → ¬ IsValid (pmm_free_page addr p)
pmm_free_page_twice p addr v lt free =
    rw (free_page_run p addr v lt)
      (λ w. omega (arith, freed_free_pages p addr v lt, freed_count p addr v lt, free, w.free))
