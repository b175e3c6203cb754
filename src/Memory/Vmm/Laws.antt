-- ===== src/Memory/Vmm/Laws.antt =====
-- `map_page_unpaged` on the map from virtual to physical pages.
use Prim.Native.Nat.{bit_and, bit_or}
use mathlib.Core.Path.{subst}
use openkernel.Base.{
  ℕ, inl, inr, true, false, ◌+◌, ◌*◌, ◌/◌, ◌%◌, ◌^◌, ◌≤◌, ◌<◌, ◌≡◌, ◌≢◌, refl, sym, ap, ◌∙◌, some,
  ◌==◌, if◌then◌else◌, update, arith, Bool-cases, ==_refl,
}
use openkernel.Base.Bits.{bit_and_mask}
use openkernel.Base.Bits.Masks.{or-zero, or_step, or-div, or-mod_two, bit_and_page}
use openkernel.Memory.Pmm.{Pmm, pmm_get_bit}
use openkernel.Memory.Pmm.Alloc.{Allocated, full, page, pmm_alloc_page_lem}
use openkernel.Memory.Vmm.{Vmm, vmm_get_pde, has_table, with_page, with_table, map_page_unpaged}
use openkernel.Memory.Vmm.Tables.{pde, pte, translate, IsSound}
use openkernel.Memory.Vmm.Map.{stored, stored-IsSound, stored_pte, stored_pde}
use openkernel.Memory.Vmm.Fresh.{
  cleared_table, cleared_table-IsSound, cleared_table_pte, cleared_table_pde,
}

pub get_pde : (virt : ℕ) (s : Vmm) → s.word_at (vmm_get_pde virt s) ≡ pde s (virt / 4096 / 1024)
unfolding vmm_get_pde
get_pde virt s = ap (λ i. s.word_at (s.page_directory + 4 * i)) (omega arith)

pub present :
    (virt : ℕ) (s : Vmm)
    → has_table virt s ≡ (if pde s (virt / 4096 / 1024) % 2 == 0 then false else true)
present virt s = rw (get_pde virt s, bit_and_mask 1 (pde s (virt / 4096 / 1024))) refl

module _ (s : Vmm) (virt : ℕ) (sound : IsSound s) (lt : virt < 2 ^ 32)
    (there : pde s (virt / 4096 / 1024) % 2 ≡ 1) where
  frame :
      bit_and (s.word_at (vmm_get_pde virt s)) 0xfffff000 ≡ pde s (virt / 4096 / 1024) / 4096 * 4096
  frame =
      let small = sound.small (virt / 4096 / 1024) (omega arith) there in
      ap (λ w. bit_and w 0xfffff000) (get_pde virt s)
      ∙ bit_and_page (pde s (virt / 4096 / 1024)) (omega (arith, small, sound.pages.count))

  pub entry_address :
      bit_and (s.word_at (vmm_get_pde virt s)) 0xfffff000 + 4 * bit_and (virt / 2 ^ 12) 0x3ff
      ≡ pde s (virt / 4096 / 1024) / 4096 * 4096 + 4 * (virt / 4096 % 1024)
  entry_address = rw (frame, bit_and_mask 10 (virt / 4096)) refl

  with_page_stored :
      (phys flags : ℕ)
      → with_page phys virt flags s ≡ stored s (virt / 4096) (bit_or (bit_or phys flags) 1)
  with_page_stored phys flags =
      ap (λ a. record s { word_at = update s.word_at a (bit_or (bit_or phys flags) 1) })
        entry_address

-- What is left after a page is mapped: its entry holds the frame and the flags, and the entries of
-- all other pages are as before.
pub record Entered (s : Vmm) (phys virt flags : ℕ) (t : Vmm) : Type 0 where
  pub sound : IsSound t
  pub entry : pte t (virt / 4096) ≡ bit_or (bit_or phys flags) 1
  pub translated : translate t (virt / 4096) ≡ some (phys / 4096)
  pub others : (u : ℕ) → u < 2 ^ 20 → u ≢ virt / 4096 → pte t u ≡ pte s u
  pub same_directory : t.page_directory ≡ s.page_directory
  pub spent : s.pmm.free_pages ≤ t.pmm.free_pages + 1
  pub kept : pde s (virt / 4096 / 1024) % 2 ≡ 1 → s.pmm.free_pages ≤ t.pmm.free_pages
  pub there : pde t (virt / 4096 / 1024) % 2 ≡ 1

-- The frame of the entry.
entry_frame :
    (phys flags : ℕ)
    → flags < 4096
    → (bit_or (bit_or phys flags) 1 % 2 ≡ 1) × (bit_or (bit_or phys flags) 1 / 4096 ≡ phys / 4096)
entry_frame phys flags h =
    let high : flags / 4096 ≡ 0 = omega arith in
    (
      or-mod_two (bit_or phys flags) 1 ∙ omega arith,
      or-div 12 (bit_or phys flags) 1
          ∙ or-zero (bit_or phys flags / 4096)
          ∙ or-div 12 phys flags
          ∙ ap (bit_or (phys / 4096)) high
          ∙ or-zero (phys / 4096),
    )

with_page-Entered :
    (s : Vmm) (phys virt flags : ℕ)
    → IsSound s
    → virt < 2 ^ 32
    → flags < 4096
    → pde s (virt / 4096 / 1024) % 2 ≡ 1
    → Entered s phys virt flags (with_page phys virt flags s)
with_page-Entered s phys virt flags sound lt h there =
    let w = bit_or (bit_or phys flags) 1 in
    let v = virt / 4096 in
    let t = stored s v w in
    let (odd, same) = entry_frame phys flags h in
    let at : pte t v ≡ w =
      stored_pte s v w sound (omega arith) there v (omega arith)
      ∙ rw (==_refl (virt / 4096)) refl in
    rw (with_page_stored s virt sound lt there phys flags) (record {
      sound = stored-IsSound s v w sound (omega arith) there;
      entry = at;
      translated = rw (at, odd, same) refl;
      others = λ u hu other. stored_pte s v w sound (omega arith) there u hu ∙ (ground arith);
      same_directory = refl;
      spent = omega arith;
      kept = λ _. omega arith;
      there =
          ap (λ w. w % 2) (stored_pde s v w sound (omega arith) there (v / 1024) (omega arith))
          ∙ there;
    })

or_present_writable : (f : ℕ) → bit_or (bit_or (f * 4096) 1) 2 ≡ f * 4096 + 3
or_present_writable f =
    let low : bit_or (f * 4096) 1 ≡ f * 4096 + 1 =
      omega (arith, or_step (f * 4096) 1, or-zero (f * 4096 / 2)) in
    let next : bit_or (f * 4096 / 2) 1 ≡ f * 4096 / 2 + 1 =
      omega (arith, or_step (f * 4096 / 2) 1, or-zero (f * 4096 / 2 / 2)) in
    let half : (f * 4096 + 1) / 2 ≡ f * 4096 / 2 = omega arith in
    ap (λ a. bit_or a 2) low ∙ or_step (f * 4096 + 1) 2 ∙ rw (half, next) (omega arith)

pub with_table_cleared :
    (s : Vmm) (virt f : ℕ) (q : Pmm)
    → with_table virt (f * 4096) (record s { pmm = q }) ≡ cleared_table s (virt / 4096 / 1024) f q
unfolding vmm_get_pde
with_table_cleared s virt f q =
    let same : virt / 2 ^ 22 ≡ virt / 4096 / 1024 = omega arith in
    rw (same, or_present_writable f) refl

-- The outcomes of `map_page_unpaged`.
pub data Mapped (s : Vmm) (phys virt flags : ℕ) : Vmm → Type 0 where
  no_page :
      pde s (virt / 4096 / 1024) % 2 ≡ 0
      → ((i : ℕ) → i < s.pmm.page_count → pmm_get_bit i s.pmm ≡ 1)
      → Mapped s phys virt flags s
  mapped : {t : Vmm} → Entered s phys virt flags t → Mapped s phys virt flags t

-- Adding the table and then the page.
map_new :
    (s : Vmm) (phys virt flags : ℕ)
    → IsSound s
    → virt < 2 ^ 32
    → flags < 4096
    → pde s (virt / 4096 / 1024) % 2 ≡ 0
    → {r : ℕ × Pmm} → Allocated s.pmm r
    → Mapped s phys virt flags (
        if r.0 == 0
        then record s { pmm = r.1 }
        else with_page phys virt flags (with_table virt r.0 (record s { pmm = r.1 })))
map_new s phys virt flags sound lt h absent (full used) = no_page absent used
map_new s phys virt flags sound lt h absent (page {q} f inside free valid count less bits) =
    let i = virt / 4096 / 1024 in
    let t = cleared_table s i f q in
    let tables =
      cleared_table-IsSound s i f q sound (omega arith) absent inside free valid count bits in
    let entry =
      cleared_table_pde s i f q sound (omega arith) absent inside free valid count bits i
        (omega arith) in
    let here : pde t i ≡ f * 4096 + 3 = entry ∙ rw (==_refl i) refl in
    let there : pde t i % 2 ≡ 1 = ap (λ w. w % 2) here ∙ omega arith in
    let nonzero : f ≢ 0 = λ e.
      (let same = ap (λ n. pmm_get_bit n s.pmm) e in omega (arith, same, free, sound.null_used)) in
    let some_page : (f * 4096 == 0) ≡ false = ground arith in
    let e = with_page-Entered t phys virt flags tables lt h there in
    let done : Mapped s phys virt flags (with_page phys virt flags t) = mapped (record {
      sound = e.sound;
      entry = e.entry;
      translated = e.translated;
      others = λ u hu other.
          e.others u hu other
          ∙ cleared_table_pte s i f q sound (omega arith) absent inside free valid count bits u hu;
      same_directory = e.same_directory;
      spent = omega arith;
      kept = λ odd. absurd (omega (arith, odd, absent));
      there = e.there;
    }) in
    rw some_page (
      subst (λ u. Mapped s phys virt flags (with_page phys virt flags u))
        (sym (with_table_cleared s virt f q)) done)

-- `map_page_unpaged` with the tables sound. Either the region of the page has no table and no page is
-- free for one, and nothing changes; or afterwards the page's entry is `phys | flags | PRESENT`,
-- the page translates to the page of `phys`, every other page's entry is as before, and the tables
-- are sound.
pub map_page_unpaged_lem :
    (s : Vmm) (phys virt flags : ℕ)
    → IsSound s
    → virt < 2 ^ 32
    → flags < 4096
    → Mapped s phys virt flags (map_page_unpaged phys virt flags s)
unfolding map_page_unpaged
map_page_unpaged_lem s phys virt flags sound lt h =
    elim (Bool-cases (pde s (virt / 4096 / 1024) % 2 == 0)) [
      | inl even ↦
          rw (present virt s, even)
            (map_new s phys virt flags sound lt h (ground arith)
              (pmm_alloc_page_lem s.pmm sound.pages))
      | inr odd ↦
          rw (present virt s, odd)
            (mapped (with_page-Entered s phys virt flags sound lt h (ground arith)))
    ]
