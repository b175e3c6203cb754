-- ===== src/Memory/Pmm.antt =====
-- The physical page allocator of src/kernel/memory.c: a bitmap with one bit for each page of 4 KB,
-- 1 for a page in use. The progress display and the messages of the code are left out.
pub mod Bitmap
pub mod Search
pub mod Valid
pub mod Init
pub mod Alloc
pub mod Free
mod Tests
use Prim.Native.Nat.{bit_and, bit_or, bit_xor}
use openkernel.Base.{
  ℕ, zero, suc, ◌+◌, ◌-◌, ◌*◌, ◌/◌, ◌%◌, ◌^◌, Bool, true, false, ltb, leb, ◌==◌, if◌then◌else◌,
  update,
}

abbrev pub page_size : ℕ
page_size = 4096

abbrev pub max_pages : ℕ
max_pages = 0x100000

abbrev u32 : ℕ → ℕ
u32 n = n % 2 ^ 32

pub record Pmm : Type 0 where
  pub bitmap : ℕ → ℕ
  pub page_count : ℕ
  pub free_pages : ℕ
  pub search_hint : ℕ

unfoldable pub pmm_set_bit : ℕ → Bool → Pmm → Pmm
pmm_set_bit index value p =
    let word = p.bitmap (index / 32) in
    let mask = 2 ^ (index % 32) in
    if leb max_pages index then p else record p {
      bitmap =
          update p.bitmap (index / 32)
            (if value then bit_or word mask else bit_and word (bit_xor mask 0xffffffff));
    }

unfoldable pub pmm_get_bit : ℕ → Pmm → ℕ
pmm_get_bit index p =
    if leb max_pages index then 1 else bit_and (p.bitmap (index / 32) / 2 ^ (index % 32)) 1

-- the page that round `n` of the search looks at
abbrev pub candidate : Pmm → ℕ → ℕ
candidate p n = u32 (p.search_hint + n) % p.page_count

-- the `for` of `pmm_find_free_page`, with `k` rounds left; `max_pages` means not found
unfoldable pub find_loop : ℕ → ℕ → Pmm → ℕ × Pmm
find_loop zero n p = (max_pages, p)
find_loop (suc k) n p =
    let i = candidate p n in
    let rest = find_loop k (n + 1) p in
    if pmm_get_bit i p == 0
    then (i, record p { search_hint = u32 (i + 1) % p.page_count })
    else rest

unfoldable pub pmm_find_free_page : Pmm → ℕ × Pmm
pmm_find_free_page p = find_loop p.page_count 0 p

-- `for (i = from; i < from + k; i++) pmm_set_bit(i, 1)`
unfoldable pub mark_loop : ℕ → ℕ → Pmm → Pmm
mark_loop zero i p = p
mark_loop (suc k) i p = mark_loop k (i + 1) (pmm_set_bit i true p)

-- `for (i = from; i < from + k; i++) { pmm_set_bit(i, 0); pmm_free_pages++; }`
unfoldable pub unmark_loop : ℕ → ℕ → Pmm → Pmm
unmark_loop zero i p = p
unmark_loop (suc k) i p =
    let q = pmm_set_bit i false p in
    unmark_loop k (i + 1) (record q { free_pages = u32 (q.free_pages + 1) })

-- the first page that `pmm_init` frees; `kernel_end` is the address of the linker's `_kernel_end`
abbrev pub start_page : ℕ → ℕ
start_page kernel_end = u32 (kernel_end + page_size) / page_size

unfoldable pub pmm_init : ℕ → ℕ → ℕ → Pmm → Pmm
pmm_init kernel_end mem_lower mem_upper p =
    let total_mem_kb = u32 (mem_lower + mem_upper) in
    let page_count = u32 (total_mem_kb * 1024) / page_size in
    let used = mark_loop page_count 0 (record p { page_count = page_count }) in
    let start = start_page kernel_end in
    let freed = unmark_loop (page_count - start) start (record used { free_pages = 0 }) in
    record freed { search_hint = start }

-- The address of the page, 0 for NULL.
unfoldable pub pmm_alloc_page : Pmm → ℕ × Pmm
pmm_alloc_page p =
    let (index, q) = pmm_find_free_page p in
    if leb q.page_count index
    then (0, q)
    else let r = pmm_set_bit index true q in
      (u32 (index * page_size), record r { free_pages = u32 (r.free_pages + 2 ^ 32 - 1) })

unfoldable pub pmm_free_page : ℕ → Pmm → Pmm
pmm_free_page addr p =
    let index = addr / page_size in
    let q = pmm_set_bit index false p in
    let hint = if ltb index q.search_hint then index else q.search_hint in
    if leb p.page_count index
    then p
    else record q { free_pages = u32 (q.free_pages + 1); search_hint = hint }

-- in KB
unfoldable pub memory_get_total : Pmm → ℕ
memory_get_total p = u32 (p.page_count * page_size) / 1024
