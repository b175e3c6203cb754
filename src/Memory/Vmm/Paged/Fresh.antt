-- ===== src/Memory/Vmm/Paged/Fresh.antt =====
-- A new table through the tables, on a page that is reached at its own address.
use Prim.Native.Nat.{bit_or}
use mathlib.Core.Path.{subst}
use openkernel.Base.{
  ℕ, zero, suc, inl, inr, Bool, ◌+◌, ◌*◌, ◌/◌, ◌%◌, ◌^◌, ◌≤◌, ◌<◌, ◌≡◌, ◌≢◌, refl, sym, ap, ◌∙◌,
  some, ◌==◌, if◌then◌else◌, update, arith, Bool-cases, ==_refl,
}
use openkernel.Memory.Pmm.{Pmm, pmm_get_bit, max_pages}
use openkernel.Memory.Pmm.Valid.{IsValid}
use openkernel.Memory.Vmm.{Vmm, vmm_get_pde, with_page, with_table, clear_loop}
use openkernel.Memory.Vmm.Tables.{pde, pte, IsSound}
use openkernel.Memory.Vmm.Map.{words_apart}
use openkernel.Memory.Vmm.Fresh.{
  cleared_table, cleared_table-IsSound, cleared_table_pte, cleared_table_pde, clear_loop_outside,
}
use openkernel.Memory.Vmm.Laws.{with_table_cleared}
use openkernel.Memory.Vmm.Paging.{and_then, store, clear_table, enter_page, add_table}
use openkernel.Memory.Vmm.Paged.{IsDirect, physical-direct, direct_same, enter_page-unpaged}

-- Words of a free page are cleared, and no table changes.
module _ (s : Vmm) (f : ℕ) (q : Pmm) (sound : IsSound s) (inside : f < s.pmm.page_count)
    (free : pmm_get_bit f s.pmm ≡ 0) where
  abbrev part : ℕ → Vmm
  part k = record s { word_at = clear_loop k (f * 4096) s.word_at; pmm = q }

  part_none : Path Vmm (record s { pmm = q }) (part 0)
  unfolding clear_loop
  part_none = refl

  apart_used : (g : ℕ) → pmm_get_bit g s.pmm ≡ 1 → g ≢ f
  apart_used g used e = let same = ap (λ n. pmm_get_bit n s.pmm) e in omega arith

  part_word :
      (k g j : ℕ)
      → k ≤ 1024
      → j < 1024
      → g ≢ f
      → (part k).word_at (g * 4096 + 4 * j) ≡ s.word_at (g * 4096 + 4 * j)
  part_word k g j le hj other =
      clear_loop_outside k (f * 4096) s.word_at _
        (λ i lt. words_apart g f j i hj (omega arith) other)

  pde-part : (k j : ℕ) → k ≤ 1024 → j < 1024 → pde (part k) j ≡ pde s j
  pde-part k j le hj =
      let at : s.page_directory + 4 * j ≡ s.page_directory / 4096 * 4096 + 4 * j =
        omega (arith, sound.aligned) in
      ap (part k).word_at at
      ∙ part_word k (s.page_directory / 4096) j le hj (apart_used _ sound.used)
      ∙ ap s.word_at (sym at)

  pte-part : (k u : ℕ) → k ≤ 1024 → u < 2 ^ 20 → pte (part k) u ≡ pte s u
  pte-part k u le hu =
      let entry = pde-part k (u / 1024) le (omega arith) in
      elim (Bool-cases (pde s (u / 1024) % 2 == 0)) [
        | inl even ↦ rw (entry, even) refl
        | inr odd ↦
            let there : pde s (u / 1024) % 2 ≡ 1 = ground arith in
            rw (entry, odd)
              (part_word k (pde s (u / 1024) / 4096) (u % 1024) le (omega arith)
                (apart_used _ (sound.table_used (u / 1024) (omega arith) there)))
      ]

  clear_table-loop :
      (paging : Bool) (k : ℕ)
      → k ≤ 1024
      → IsDirect paging s f
      → clear_table paging k (f * 4096) (part 0) ≡ some (part k)
  unfolding clear_table clear_loop
  clear_table-loop paging zero le direct = refl
  clear_table-loop paging (suc k) le direct =
      let small : f < 2 ^ 20 = omega (arith, sound.pages.count) in
      let here = direct_same paging s (part k) f (pte-part k f (omega arith) small) direct in
      let at = physical-direct paging (part k) (f * 4096 + 4 * k) f (omega arith) here in
      ap (λ t. and_then t (store paging (f * 4096 + 4 * k) 0))
        (clear_table-loop paging k (omega arith) direct)
      ∙ ap (λ a. and_then a (λ a. some (record (part k) { word_at = update (part k).word_at a 0 })))
          at

  clear_table_all :
      (paging : Bool)
      → IsDirect paging s f
      → clear_table paging 1024 (f * 4096) (record s { pmm = q }) ≡ some (part 1024)
  clear_table_all paging direct =
      ap (λ t. clear_table paging 1024 (f * 4096) t) part_none
      ∙ clear_table-loop paging 1024 (omega arith) direct

module _ (paging : Bool) (s : Vmm) (virt f : ℕ) (q : Pmm) (sound : IsSound s) (lt : virt < 2 ^ 32)
    (absent : pde s (virt / 4096 / 1024) % 2 ≡ 0) (inside : f < s.pmm.page_count)
    (free : pmm_get_bit f s.pmm ≡ 0) (valid : IsValid q) (pages : q.page_count ≡ s.pmm.page_count)
    (bits : (j : ℕ) → j < max_pages → pmm_get_bit j q ≡ (if f == j then 1 else pmm_get_bit j s.pmm))
    (directory : IsDirect paging s (s.page_directory / 4096)) (direct : IsDirect paging s f) where
  pub add_table-unpaged :
      add_table paging virt (f * 4096) (record s { pmm = q })
      ≡ some (with_table virt (f * 4096) (record s { pmm = q }))
  unfolding add_table vmm_get_pde
  add_table-unpaged =
      let full = part s f q sound inside free 1024 in
      let dir = s.page_directory / 4096 in
      let small : dir < 2 ^ 20 = omega (arith, sound.below, sound.pages.count) in
      let same = pte-part s f q sound inside free 1024 dir (omega arith) small in
      let at =
        physical-direct paging full (s.page_directory + 4 * (virt / 2 ^ 22)) dir
          (omega (arith, sound.aligned)) (direct_same paging s full dir same directory) in
      let w = bit_or (bit_or (f * 4096) 1) 2 in
      ap (λ t. and_then t (λ t. store paging (vmm_get_pde virt t) w t))
        (clear_table_all s f q sound inside free paging direct)
      ∙ ap (λ a. and_then a (λ a. some (record full { word_at = update full.word_at a w }))) at

  pub enter_new-unpaged :
      (phys flags : ℕ)
      → enter_page paging phys virt flags (with_table virt (f * 4096) (record s { pmm = q }))
        ≡ some (with_page phys virt flags (with_table virt (f * 4096) (record s { pmm = q })))
  enter_new-unpaged phys flags =
      let i = virt / 4096 / 1024 in
      let t = cleared_table s i f q in
      let tables =
        cleared_table-IsSound s i f q sound (omega arith) absent inside free valid pages bits in
      let same =
        cleared_table_pte s i f q sound (omega arith) absent inside free valid pages bits in
      let entry =
        cleared_table_pde s i f q sound (omega arith) absent inside free valid pages bits i
          (omega arith) in
      let here : pde t i ≡ f * 4096 + 3 = entry ∙ rw (==_refl i) refl in
      let there : pde t i % 2 ≡ 1 = ap (λ w. w % 2) here ∙ omega arith in
      let frame : pde t i / 4096 ≡ f = ap (λ w. w / 4096) here ∙ omega arith in
      let dir = s.page_directory / 4096 in
      let small : dir < 2 ^ 20 = omega (arith, sound.below, sound.pages.count) in
      let low : f < 2 ^ 20 = omega (arith, sound.pages.count) in
      let table : IsDirect paging t (pde t i / 4096) =
        subst (IsDirect paging t) (sym frame) (direct_same paging s t f (same f low) direct) in
      subst (λ u. enter_page paging phys virt flags u ≡ some (with_page phys virt flags u))
        (sym (with_table_cleared s virt f q))
        (enter_page-unpaged paging t virt tables lt
          (direct_same paging s t dir (same dir small) directory) there table phys flags)
