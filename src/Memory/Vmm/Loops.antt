-- ===== src/Memory/Vmm/Loops.antt =====
-- The loops of `vmm_init`.
use mathlib.Core.Path.{subst}
use openkernel.Base.{
  ℕ, zero, suc, inl, inr, ◌+◌, ◌-◌, ◌/◌, ◌%◌, ◌^◌, ◌≤◌, ◌<◌, ◌≡◌, ◌≢◌, refl, sym, ap, ◌∙◌, Option,
  none, some, ◌==◌, if◌then◌else◌, arith, Bool-cases, ==_eq,
}
use openkernel.Memory.Pmm.{Pmm, pmm_get_bit}
use openkernel.Memory.Pmm.Search.{count_free}
use openkernel.Memory.Vmm.{Vmm, map_page_unpaged, map_loop}
use openkernel.Memory.Vmm.Tables.{pde, pte, translate, IsSound}
use openkernel.Memory.Vmm.Laws.{Entered, Mapped, no_page, mapped, map_page_unpaged_lem}

pub count_free_used :
    (n : ℕ) (p : Pmm) → ((i : ℕ) → i < n → pmm_get_bit i p ≡ 1) → count_free n p ≡ 0
unfolding count_free
count_free_used zero p h = refl
count_free_used (suc n) p h =
    ground (arith, count_free_used n p (λ i lt. h i (omega arith)), h n (omega arith))

-- With a page free, or the table there, a page is mapped.
module _ (s : Vmm) (phys virt : ℕ) (sound : IsSound s) where
  pub entered :
      {flags : ℕ} {t : Vmm}
      → Mapped s phys virt flags t
      → 0 < s.pmm.free_pages + pde s (virt / 4096 / 1024) % 2
      → Entered s phys virt flags t
  entered (no_page absent used) h =
      absurd (omega (arith, count_free_used s.pmm.page_count s.pmm used, sound.pages.free))
  entered (mapped e) h = e

-- The tables that are added for `k` pages from `v` on.
abbrev pub new_tables : Vmm → ℕ → ℕ → ℕ
new_tables s v zero = 0
new_tables s v (suc k) = (v + k) / 1024 - v / 1024 + (1 - pde s (v / 1024) % 2)

-- The pages from `v` on are mapped in `t`, and the others are as in `s`.
pub record Filled (s : Vmm) (v k : ℕ) (is : ℕ → Option ℕ → Type 0) (t : Vmm) : Type 0 where
  pub sound : IsSound t
  pub inside : (j : ℕ) → j < k → is j (translate t (v + j))
  pub outside : (u : ℕ) → u < 2 ^ 20 → ((j : ℕ) → j < k → v + j ≢ u) → pte t u ≡ pte s u
  pub same_directory : t.page_directory ≡ s.page_directory

-- What one page costs.
pub new_tables_next :
    (s t : Vmm) (phys virt v k : ℕ)
    → virt / 4096 ≡ v
    → Entered s phys virt 3 t
    → new_tables t (v + 1) k + s.pmm.free_pages ≤ new_tables s v (suc k) + t.pmm.free_pages
new_tables_next s t phys virt v zero at e =
    let here = ap (λ n. pde s (n / 1024) % 2) at in ground (arith, e.kept, e.spent)
new_tables_next s t phys virt v (suc k) at e =
    let here : pde s (virt / 4096 / 1024) % 2 ≡ pde s (v / 1024) % 2 =
      ap (λ n. pde s (n / 1024) % 2) at in
    elim (Bool-cases ((v + 1) / 1024 == virt / 4096 / 1024)) [
      | inl same ↦
          let there : pde t ((v + 1) / 1024) % 2 ≡ 1 =
            ap (λ i. pde t i % 2) (==_eq _ _ same) ∙ e.there in
          ground (arith, e.kept, e.spent)
      | inr other ↦ ground (arith, e.kept, e.spent)
    ]

at_each :
    (is : ℕ → Option ℕ → Type 0) (f : ℕ → Option ℕ) (v k : ℕ)
    → is 0 (f v)
    → ((j : ℕ) → j < k → is (j + 1) (f (v + 1 + j)))
    → (j : ℕ) → j < suc k
    → is j (f (v + j))
at_each is f v k first rest zero lt = subst (λ n. is 0 (f n)) (omega arith) first
at_each is f v k first rest (suc j) lt =
    subst (λ n. is (suc j) (f n)) (omega arith)
      (subst (λ n. is n (f (v + 1 + j))) (omega arith) (rest j (omega arith)))

-- One page, and then the pages after it.
pub Filled-next :
    (s t u : Vmm) (phys virt v k : ℕ) (is : ℕ → Option ℕ → Type 0)
    → virt / 4096 ≡ v
    → v < 2 ^ 20
    → Entered s phys virt 3 t
    → is 0 (some (phys / 4096))
    → Filled t (v + 1) k (λ j. is (j + 1)) u
    → Filled s v (suc k) is u
Filled-next s t u phys virt v k is at lt e first rest =
    let here : translate u v ≡ some (phys / 4096) =
      ap (λ w. if w % 2 == 0 then none else some (w / 4096))
        (rest.outside v lt (λ j lt e. omega arith))
      ∙ ap (translate t) (sym at)
      ∙ e.translated in
    record {
      sound = rest.sound;
      inside = at_each is (translate u) v k (subst (is 0) (sym here) first) rest.inside;
      outside = λ w lt out.
          rest.outside w lt (λ j lt e. out (j + 1) (omega arith) (omega arith))
          ∙ e.others w lt (λ h. out 0 (omega arith) (omega arith));
      same_directory = rest.same_directory ∙ e.same_directory;
    }

pub Filled-map :
    (s t : Vmm) (v k : ℕ) (is is' : ℕ → Option ℕ → Type 0)
    → ((j : ℕ) (o : Option ℕ) → is j o → is' j o)
    → Filled s v k is t
    → Filled s v k is' t
Filled-map s t v k is is' h filled = record {
  sound = filled.sound;
  inside = λ j lt. h j _ (filled.inside j lt);
  outside = filled.outside;
  same_directory = filled.same_directory;
}

pub Filled-none : (s : Vmm) (v : ℕ) (is : ℕ → Option ℕ → Type 0) → IsSound s → Filled s v 0 is s
Filled-none s v is sound = record {
  sound = sound;
  inside = λ j lt. absurd (omega arith);
  outside = λ u lt out. refl;
  same_directory = refl;
}

pub map_loop_lem :
    (k f v phys virt : ℕ) (s : Vmm)
    → phys / 4096 ≡ f
    → virt / 4096 ≡ v
    → v + k ≤ 2 ^ 20
    → IsSound s
    → new_tables s v k ≤ s.pmm.free_pages
    → let t = map_loop k phys virt s in
      Filled s v k (λ j o. o ≡ some (f + j)) t
      × (s.pmm.free_pages ≤ t.pmm.free_pages + new_tables s v k)
unfolding map_loop
map_loop_lem zero f v phys virt s e e' lt sound enough = (Filled-none s v _ sound, omega arith)
map_loop_lem (suc k) f v phys virt s e e' lt sound enough =
    let t = map_page_unpaged phys virt 3 s in
    let here : pde s (virt / 4096 / 1024) % 2 ≡ pde s (v / 1024) % 2 =
      ap (λ n. pde s (n / 1024) % 2) e' in
    let step : Entered s phys virt 3 t =
      entered s phys virt sound
        (map_page_unpaged_lem s phys virt 3 sound (omega arith) (omega arith))
        (omega (arith, here, enough)) in
    let cost = new_tables_next s t phys virt v k e' step in
    let (rest, free) =
      map_loop_lem k (f + 1) (v + 1) (phys + 4096) (virt + 4096) t (omega arith) (omega arith)
        (omega arith) step.sound (omega (arith, cost, enough)) in
    let later =
      Filled-map t _ (v + 1) k (λ j o. o ≡ some (f + 1 + j)) (λ j o. o ≡ some (f + (j + 1)))
        (λ j o h. h ∙ ap some (omega arith)) rest in
    (
      Filled-next s t _ phys virt v k (λ j o. o ≡ some (f + j)) e' (omega arith) step
          (ap some (omega arith)) later,
      omega (arith, cost, free),
    )
