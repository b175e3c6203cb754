-- ===== src/Memory/Pmm/Init.antt =====
-- The state that `pmm_init` builds.
use openkernel.Base.{
  ℕ, zero, suc, ◌+◌, ◌-◌, ◌*◌, ◌/◌, ◌^◌, ◌≤◌, ◌<◌, ◌≡◌, refl, ◌∙◌, sym, ap, true, false, arith, ltb,
  leb, ◌==◌, if◌then◌else◌, ◌&&◌,
}
use openkernel.Memory.Pmm.{
  Pmm, max_pages, page_size, u32, start_page, pmm_set_bit, pmm_get_bit, mark_loop, unmark_loop,
  pmm_init,
}
use openkernel.Memory.Pmm.Bitmap.{get_bit-set_bit}
use openkernel.Memory.Pmm.Search.{count_free}
use openkernel.Memory.Pmm.Valid.{IsValid, get_bit_fields}

mark_loop_bits :
    (k i : ℕ) (p : Pmm) (j : ℕ)
    → i + k ≤ max_pages
    → j < max_pages
    → pmm_get_bit j (mark_loop k i p) ≡ (if leb i j && ltb j (i + k) then 1 else pmm_get_bit j p)
unfolding mark_loop
mark_loop_bits zero i p j h hj = ground arith
mark_loop_bits (suc k) i p j h hj =
    ground (arith, mark_loop_bits k (i + 1) (pmm_set_bit i true p) j, get_bit-set_bit i j true p)

mark_loop_count : (k i : ℕ) (p : Pmm) → (mark_loop k i p).page_count ≡ p.page_count
unfolding mark_loop pmm_set_bit
mark_loop_count zero i p = refl
mark_loop_count (suc k) i p = ground (arith, mark_loop_count k (i + 1) (pmm_set_bit i true p))

abbrev cleared : ℕ → Pmm → Pmm
cleared i p = let q = pmm_set_bit i false p in record q { free_pages = u32 (q.free_pages + 1) }

cleared_bits :
    (i j : ℕ) (p : Pmm)
    → i < max_pages
    → j < max_pages
    → pmm_get_bit j (cleared i p) ≡ (if i == j then 0 else pmm_get_bit j p)
unfolding pmm_get_bit
cleared_bits i j p hi hj = get_bit-set_bit i j false p hi hj

unmark_loop_bits :
    (k i : ℕ) (p : Pmm) (j : ℕ)
    → i + k ≤ max_pages
    → j < max_pages
    → pmm_get_bit j (unmark_loop k i p) ≡ (if leb i j && ltb j (i + k) then 0 else pmm_get_bit j p)
unfolding unmark_loop
unmark_loop_bits zero i p j h hj = ground arith
unmark_loop_bits (suc k) i p j h hj =
    ground (arith, unmark_loop_bits k (i + 1) (cleared i p) j, cleared_bits i j p)

unmark_loop_fields :
    (k i : ℕ) (p : Pmm)
    → p.free_pages + k < 2 ^ 32
    → ((unmark_loop k i p).page_count ≡ p.page_count)
      × ((unmark_loop k i p).free_pages ≡ p.free_pages + k)
unfolding unmark_loop pmm_set_bit
unmark_loop_fields zero i p h = (refl, omega arith)
unmark_loop_fields (suc k) i p h = ground (arith, unmark_loop_fields k (i + 1) (cleared i p))

count_free_from :
    (n start : ℕ) (p : Pmm)
    → ((j : ℕ) → j < n → pmm_get_bit j p ≡ (if leb start j then 0 else 1))
    → count_free n p ≡ n - start
unfolding count_free
count_free_from zero start p h = omega arith
count_free_from (suc n) start p h =
    ground (arith, count_free_from n start p (λ j lt. h j (omega arith)), h n)

module _ (count start : ℕ) (p : Pmm) (h : count ≤ max_pages) (h' : start ≤ max_pages) where
  abbrev marked : Pmm
  marked = mark_loop count 0 (record p { page_count = count })

  abbrev unmarked : Pmm
  unmarked = unmark_loop (count - start) start (record marked { free_pages = 0 })

  unmarked_fields : (unmarked.page_count ≡ count) × (unmarked.free_pages ≡ count - start)
  unmarked_fields =
      let fields =
        unmark_loop_fields (count - start) start (record marked { free_pages = 0 }) (omega arith) in
      (
        fields.0 ∙ mark_loop_count count 0 (record p { page_count = count }),
        omega (arith, fields.1),
      )

  unmarked_bits : (j : ℕ) → j < count → pmm_get_bit j unmarked ≡ (if leb start j then 0 else 1)
  unmarked_bits j lt = ground (
    arith,
    unmark_loop_bits (count - start) start (record marked { free_pages = 0 }) j,
    get_bit_fields j marked.page_count 0 marked.search_hint marked,
    mark_loop_bits count 0 (record p { page_count = count }) j,
  )

  final_bits :
      (j : ℕ)
      → j < count
      → pmm_get_bit j (record unmarked { search_hint = start }) ≡ (if leb start j then 0 else 1)
  final_bits j lt =
      get_bit_fields j unmarked.page_count unmarked.free_pages start unmarked ∙ unmarked_bits j lt

-- `pmm_init` derives the page count from the memory size in KB with 32-bit arithmetic, so it never
-- exceeds the bitmap; every page below the first page after the kernel is in use, every page from
-- there to the page count is free, and the counter and the hint are right.
pub pmm_init_lem :
    (kernel_end mem_lower mem_upper : ℕ) (p : Pmm)
    → let q = pmm_init kernel_end mem_lower mem_upper p in
      (q.page_count ≡ u32 (u32 (mem_lower + mem_upper) * 1024) / page_size)
      × IsValid q
      × (q.free_pages ≡ q.page_count - start_page kernel_end)
      × ((j : ℕ)
          → j < q.page_count
          → pmm_get_bit j q ≡ (if leb (start_page kernel_end) j then 0 else 1))
unfolding pmm_init
pmm_init_lem kernel_end mem_lower mem_upper p =
    let count = u32 (u32 (mem_lower + mem_upper) * 1024) / page_size in
    let start = start_page kernel_end in
    let h : count ≤ max_pages = omega arith in
    let h' : start ≤ max_pages = omega arith in
    let (pages, free) = unmarked_fields count start p h h' in
    let bits = final_bits count start p h h' in
    let q = record (unmarked count start p h h') { search_hint = start } in
    (
      pages,
      record {
        count = rw pages h;
        hint = h';
        free = free ∙ sym (ap (λ n. count_free n q) pages ∙ count_free_from count start q bits);
      },
      free ∙ ap (λ n. n - start) (sym pages),
      λ j lt. bits j (rw pages at lt),
    )
