-- ===== src/Memory/Pmm/Alloc.antt =====
-- `pmm_alloc_page`.
use openkernel.Base.{
  ℕ, ◌+◌, ◌-◌, ◌*◌, ◌%◌, ◌^◌, ◌≤◌, ◌<◌, ◌≡◌, refl, ◌∙◌, sym, ap, inl, inr, true, false, arith, leb,
  ◌==◌, if◌then◌else◌,
}
use native.Mathlib.Decide.{dec_lt}
use native.Mathlib.Nat.{mod-lt}
use openkernel.Memory.Pmm.{
  Pmm, max_pages, page_size, u32, candidate, pmm_set_bit, pmm_get_bit, find_loop,
  pmm_find_free_page, pmm_alloc_page,
}
use openkernel.Memory.Pmm.Search.{
  count_free, count_free_same, count_free-le, round_trip, find_loop-result,
}
use openkernel.Memory.Pmm.Valid.{
  IsValid, get_bit_fields, written, written_pages, written_bits, written_count, set_bit_free_pages,
  set_bit_search_hint,
}

-- The two outcomes of `pmm_alloc_page` in a valid state.
pub data Allocated (p : Pmm) : ℕ × Pmm → Type 0 where
  full : ((i : ℕ) → i < p.page_count → pmm_get_bit i p ≡ 1) → Allocated p (0, p)
  page :
      {q : Pmm} (i : ℕ)
      → i < p.page_count
      → pmm_get_bit i p ≡ 0
      → IsValid q
      → q.page_count ≡ p.page_count
      → q.free_pages + 1 ≡ p.free_pages
      → ((j : ℕ) → j < max_pages → pmm_get_bit j q ≡ (if i == j then 1 else pmm_get_bit j p))
      → Allocated p (i * page_size, q)

-- The branch of `pmm_alloc_page` where the search found the page `i`.
alloc_found :
    (p : Pmm) (i s : ℕ)
    → IsValid p
    → i < p.page_count
    → pmm_get_bit i p ≡ 0
    → s ≤ max_pages
    → let r = pmm_set_bit i true (record p { search_hint = s }) in
      Allocated p (i * page_size, record r { free_pages = u32 (r.free_pages + 2 ^ 32 - 1) })
alloc_found p i s v lt free le =
    let q = record p { search_hint = s } in
    let r = pmm_set_bit i true q in
    let f = u32 (r.free_pages + 2 ^ 32 - 1) in
    let small : i < max_pages = omega (arith, v.count) in
    let same : (j : ℕ) → pmm_get_bit j q ≡ pmm_get_bit j p =
      λ j. get_bit_fields j p.page_count p.free_pages s p in
    let pages = written_pages i true q f r.search_hint small in
    let bits = written_bits i true q f r.search_hint small in
    let count = written_count i true q f r.search_hint small p.page_count lt v.count in
    let total = count_free_same p.page_count p q same in
    let bound = count_free-le p.page_count p in
    let old = set_bit_free_pages i true q in
    let hint = set_bit_search_hint i true q in
    let w = written i true q f r.search_hint small in
    let taken : count_free p.page_count w + 1 ≡ p.free_pages =
      omega (arith, count, total, same i, v.free) in
    let less : f + 1 ≡ p.free_pages = omega (arith, old, taken, bound, v.count, v.free) in
    page i lt free
      (record {
        count = rw pages v.count;
        hint = rw hint le;
        free = omega (arith, less, taken, ap (λ n. count_free n w) pages);
      })
      pages less (λ j lt'. ground (arith, bits j, same j))

-- `pmm_alloc_page` in a valid state. Either every page is in use, and it returns NULL and changes
-- nothing; or it returns the address of a page that was free, marks that page and no other as used,
-- and leaves a valid state.
pub pmm_alloc_page_lem : (p : Pmm) → IsValid p → Allocated p (pmm_alloc_page p)
unfolding pmm_alloc_page pmm_find_free_page
pmm_alloc_page_lem p v = elim (dec_lt 0 p.page_count) [
  | yes pos ↦ elim (find_loop-result p.page_count 0 p pos) [
    | inl (i, e, free, lt) ↦
        let s = u32 (i + 1) % p.page_count in
        let le : s ≤ max_pages = omega (arith, mod-lt (u32 (i + 1)) pos, v.count) in
        let inside : leb p.page_count i ≡ false = ground arith in
        let word : u32 (i * page_size) ≡ i * page_size = omega (arith, v.count) in
        rw (e, inside, word) (alloc_found p i s v lt free le)
    | inr (e, used) ↦
        let out : leb p.page_count max_pages ≡ true = ground (arith, v.count) in
        rw (e, out)
          (full λ i lt.
            let (n, below, at) = round_trip p.search_hint p.page_count i lt in
            let word : u32 (p.search_hint + n) ≡ p.search_hint + n =
              omega (arith, v.hint, v.count) in
            let here : candidate p n ≡ i = ap (λ t. t % p.page_count) word ∙ at in
            ap (λ t. pmm_get_bit t p) (sym here) ∙ used n (omega arith) (omega arith))
  ]
  | no empty ↦
      let zero_pages : p.page_count ≡ 0 = omega arith in
      let e : find_loop p.page_count 0 p ≡ (max_pages, p) =
        ap (λ k. find_loop k 0 p) zero_pages ∙ unfold find_loop in refl in
      let out : leb p.page_count max_pages ≡ true = ground (arith, v.count) in
      rw (e, out) (full λ i lt. absurd (omega arith))
]
