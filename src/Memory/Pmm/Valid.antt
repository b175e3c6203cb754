-- ===== src/Memory/Pmm/Valid.antt =====
-- Valid states of the page allocator, and the state after one bit is written.
use openkernel.Base.{ℕ, ◌+◌, ◌-◌, ◌≤◌, ◌<◌, ◌≡◌, refl, ◌∙◌, ap, Bool, arith, ◌==◌, if◌then◌else◌}
use openkernel.Memory.Pmm.{Pmm, max_pages, pmm_set_bit, pmm_get_bit}
use openkernel.Memory.Pmm.Bitmap.{get_bit-set_bit}
use openkernel.Memory.Pmm.Search.{count_free, count_free-set_bit, count_free_same}

-- The page count fits the bitmap, the hint cannot overflow, and `free_pages` counts the zero bits.
pub record IsValid (p : Pmm) : Type 0 where
  pub count : p.page_count ≤ max_pages
  pub hint : p.search_hint ≤ max_pages
  pub free : p.free_pages ≡ count_free p.page_count p

-- The bits stand in the bitmap alone.
pub get_bit_fields :
    (j c f h : ℕ) (p : Pmm)
    → pmm_get_bit j (record p { page_count = c; free_pages = f; search_hint = h }) ≡ pmm_get_bit j p
unfolding pmm_get_bit
get_bit_fields j c f h p = refl

-- The state after one bit is written, with any counter and hint.
module _ (i : ℕ) (value : Bool) (p : Pmm) (f h : ℕ) (lt : i < max_pages) where
  abbrev pub written : Pmm
  written = record (pmm_set_bit i value p) { free_pages = f; search_hint = h }

  pub written_pages : written.page_count ≡ p.page_count
  unfolding pmm_set_bit
  written_pages = ground arith

  pub written_bits :
      (j : ℕ)
      → j < max_pages
      → pmm_get_bit j written ≡ (if i == j then (if value then 1 else 0) else pmm_get_bit j p)
  written_bits j lt' =
      get_bit_fields j (pmm_set_bit i value p).page_count f h (pmm_set_bit i value p)
      ∙ get_bit-set_bit i j value p lt lt'

  pub written_count :
      (n : ℕ)
      → i < n
      → n ≤ max_pages
      → count_free n written + (1 - pmm_get_bit i p) ≡ count_free n p + (if value then 0 else 1)
  written_count n below le =
      let q = pmm_set_bit i value p in
      let same = count_free_same n q written (λ j. get_bit_fields j q.page_count f h q) in
      ap (λ t. t + (1 - pmm_get_bit i p)) same ∙ count_free-set_bit n i value p below le

pub set_bit_free_pages :
    (i : ℕ) (value : Bool) (p : Pmm) → (pmm_set_bit i value p).free_pages ≡ p.free_pages
unfolding pmm_set_bit
set_bit_free_pages i value p = ground arith

pub set_bit_search_hint :
    (i : ℕ) (value : Bool) (p : Pmm) → (pmm_set_bit i value p).search_hint ≡ p.search_hint
unfolding pmm_set_bit
set_bit_search_hint i value p = ground arith
