-- ===== src/Memory/Vmm/Unmap.antt =====
-- `unmap_page_unpaged` on the map from virtual to physical pages.
use Prim.Native.Nat.{bit_and}
use openkernel.Base.{
  ℕ, inl, inr, true, false, ◌+◌, ◌*◌, ◌/◌, ◌%◌, ◌^◌, ◌<◌, ◌≡◌, ◌≢◌, refl, ◌∙◌, none, ◌==◌, arith,
  Bool-cases, ==_refl,
}
use openkernel.Base.Bits.{bit_and_mask}
use openkernel.Memory.Vmm.{Vmm, vmm_get_pde, get_pte_unpaged, unmap_page_unpaged}
use openkernel.Memory.Vmm.Tables.{pde, pte, translate, IsSound}
use openkernel.Memory.Vmm.Map.{stored, stored-IsSound, stored_pte}
use openkernel.Memory.Vmm.Laws.{get_pde, entry_address}

-- What is left after a page is unmapped.
pub record Unmapped (s : Vmm) (virt : ℕ) (t : Vmm) : Type 0 where
  pub sound : IsSound t
  pub translated : translate t (virt / 4096) ≡ none
  pub others : (u : ℕ) → u < 2 ^ 20 → u ≢ virt / 4096 → pte t u ≡ pte s u
  pub same_pmm : t.pmm ≡ s.pmm

get_pte_none :
    (s : Vmm) (virt : ℕ) → (pde s (virt / 4096 / 1024) % 2 == 0) ≡ true → get_pte_unpaged virt s ≡ 0
unfolding get_pte_unpaged
get_pte_none s virt even =
    rw (get_pde virt s, bit_and_mask 1 (pde s (virt / 4096 / 1024)), even) refl

get_pte_some :
    (s : Vmm) (virt : ℕ)
    → IsSound s
    → virt < 2 ^ 32
    → (pde s (virt / 4096 / 1024) % 2 == 0) ≡ false
    → get_pte_unpaged virt s ≡ pde s (virt / 4096 / 1024) / 4096 * 4096 + 4 * (virt / 4096 % 1024)
unfolding get_pte_unpaged
get_pte_some s virt sound lt odd =
    let there : (bit_and (s.word_at (vmm_get_pde virt s)) 1 == 0) ≡ false =
      rw (get_pde virt s, bit_and_mask 1 (pde s (virt / 4096 / 1024))) odd in
    rw there (entry_address s virt sound lt (ground arith))

-- `unmap_page_unpaged` with the tables sound: afterwards the page translates to nothing, whether or not
-- it was mapped, every other page's entry is as before, and the tables are sound.
pub unmap_page_unpaged_lem :
    (s : Vmm) (virt : ℕ) → IsSound s → virt < 2 ^ 32 → Unmapped s virt (unmap_page_unpaged virt s)
unfolding unmap_page_unpaged
unmap_page_unpaged_lem s virt sound lt =
    let v = virt / 4096 in
    elim (Bool-cases (pde s (v / 1024) % 2 == 0)) [
      | inl even ↦ rw (get_pte_none s virt even) (record {
        sound = sound;
        translated = rw even refl;
        others = λ u hu other. refl;
        same_pmm = refl;
      })
      | inr odd ↦
          let at = get_pte_some s virt sound lt odd in
          let there : pde s (v / 1024) % 2 ≡ 1 = ground arith in
          let filled : (pde s (v / 1024) / 4096 * 4096 + 4 * (v % 1024) == 0) ≡ false =
            ground (arith, sound.nonnull (v / 1024) (omega arith) there) in
          let entry : pte (stored s v 0) v ≡ 0 =
            stored_pte s v 0 sound (omega arith) there v (omega arith) ∙ rw (==_refl v) refl in
          rw (at, filled)
            (record {
              sound = stored-IsSound s v 0 sound (omega arith) there;
              translated = rw entry refl;
              others = λ u hu other. stored_pte s v 0 sound (omega arith) there u hu ∙ ground arith;
              same_pmm = refl;
            })
    ]
