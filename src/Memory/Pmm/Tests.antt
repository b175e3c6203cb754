-- ===== src/Memory/Pmm/Tests.antt =====
-- The page allocator at concrete inputs, and its theorems there.
use openkernel.Base.{ℕ, ◌-◌, ◌<◌, ◌≡◌, refl, arith, leb, ◌==◌, if◌then◌else◌}
use openkernel.Memory.Pmm.{
  Pmm, max_pages, pmm_set_bit, pmm_get_bit, find_loop, pmm_init, pmm_find_free_page, pmm_alloc_page,
  pmm_free_page, mark_loop, unmark_loop,
}
use openkernel.Memory.Pmm.Valid.{IsValid}
use openkernel.Memory.Pmm.Init.{pmm_init_lem}
use openkernel.Memory.Pmm.Alloc.{Allocated, pmm_alloc_page_lem}
use openkernel.Memory.Pmm.Free.{pmm_free_page_lem}

abbrev blank : Pmm
blank = record { bitmap = λ _. 0; page_count = 0; free_pages = 0; search_hint = 0 }

-- Eight pages, of which the kernel ends in page 1.
abbrev small : Pmm
small = pmm_init 0x1800 16 16 blank

small-IsValid : IsValid small
small-IsValid = (pmm_init_lem 0x1800 16 16 blank).1

small_fields : (small.page_count ≡ 8) × (small.free_pages ≡ 6) × (small.search_hint ≡ 2)
unfolding pmm_init mark_loop unmark_loop pmm_set_bit
small_fields = (refl, refl, refl)

first_page : (pmm_alloc_page small).0 ≡ 0x2000
unfolding pmm_alloc_page pmm_find_free_page find_loop pmm_get_bit pmm_init mark_loop unmark_loop
    pmm_set_bit
first_page = refl

pmm_init_lem_example :
    (small.page_count ≡ 8)
    × IsValid small
    × (small.free_pages ≡ small.page_count - 2)
    × ((j : ℕ) → j < small.page_count → pmm_get_bit j small ≡ (if leb 2 j then 0 else 1))
pmm_init_lem_example = pmm_init_lem 0x1800 16 16 blank

pmm_alloc_page_lem_example : Allocated small (pmm_alloc_page small)
pmm_alloc_page_lem_example = pmm_alloc_page_lem small small-IsValid

pmm_free_page_lem_example :
    IsValid (pmm_free_page 0x1000 small)
    × ((j : ℕ)
        → j < max_pages
        → pmm_get_bit j (pmm_free_page 0x1000 small) ≡ (if 1 == j then 0 else pmm_get_bit j small))
unfolding pmm_init pmm_get_bit mark_loop unmark_loop pmm_set_bit
pmm_free_page_lem_example = pmm_free_page_lem small 0x1000 small-IsValid (omega arith) refl
