-- ===== src/Memory/Vmm/Fresh.antt =====
-- The branch of `map_page_unpaged` that adds a table.
use openkernel.Base.{
  ℕ, zero, suc, inl, inr, true, false, ◌+◌, ◌*◌, ◌/◌, ◌%◌, ◌^◌, ◌<◌, ◌≡◌, ◌≢◌, ◌⊎◌, refl, sym, ap,
  ◌∙◌, ◌==◌, if◌then◌else◌, update, update_ne, update_self, arith, Bool-cases, ==_eq,
}
use openkernel.Memory.Pmm.{Pmm, pmm_get_bit, max_pages}
use openkernel.Memory.Pmm.Valid.{IsValid}
use openkernel.Memory.Vmm.{Vmm, clear_loop}
use openkernel.Memory.Vmm.Tables.{pde, pte, IsSound}
use openkernel.Memory.Vmm.Map.{words_apart}

pub clear_loop_inside : (k a : ℕ) (m : ℕ → ℕ) (j : ℕ) → j < k → clear_loop k a m (a + 4 * j) ≡ 0
unfolding clear_loop
clear_loop_inside zero a m j h = absurd (omega arith)
clear_loop_inside (suc k) a m j h = ground (arith, clear_loop_inside k a m j)

pub clear_loop_outside :
    (k a : ℕ) (m : ℕ → ℕ) (x : ℕ) → ((j : ℕ) → j < k → a + 4 * j ≢ x) → clear_loop k a m x ≡ m x
unfolding clear_loop
clear_loop_outside zero a m x h = refl
clear_loop_outside (suc k) a m x h =
    update_ne (clear_loop k a m) (a + 4 * k) 0 x (h k (omega arith))
    ∙ clear_loop_outside k a m x (λ j lt. h j (omega arith))

-- The state with a cleared table for the region `i` on the page `f`.
abbrev pub cleared_table : Vmm → ℕ → ℕ → Pmm → Vmm
cleared_table s i f q = record {
  page_directory = s.page_directory;
  word_at = update (clear_loop 1024 (f * 4096) s.word_at) (s.page_directory + 4 * i) (f * 4096 + 3);
  pmm = q;
}

-- The region `i` has no table, and gets the free page `f`.
module _ (s : Vmm) (i f : ℕ) (q : Pmm) (sound : IsSound s) (hi : i < 1024)
    (absent : pde s i % 2 ≡ 0) (inside : f < s.pmm.page_count) (free : pmm_get_bit f s.pmm ≡ 0)
    (valid : IsValid q) (pages : q.page_count ≡ s.pmm.page_count)
    (bits : (j : ℕ)
      → j < max_pages
      → pmm_get_bit j q ≡ (if f == j then 1 else pmm_get_bit j s.pmm)) where
  abbrev fresh : Vmm
  fresh = cleared_table s i f q

  -- The new page is none of the pages in use.
  not_free : (g : ℕ) → pmm_get_bit g s.pmm ≡ 1 → f ≢ g
  not_free g h e = let same = ap (λ n. pmm_get_bit n s.pmm) e in omega arith

  fresh_word :
      (g k : ℕ)
      → k < 1024
      → f ≢ g
      → s.page_directory + 4 * i ≢ g * 4096 + 4 * k
      → fresh.word_at (g * 4096 + 4 * k) ≡ s.word_at (g * 4096 + 4 * k)
  fresh_word g k hk other apart =
      update_ne (clear_loop 1024 (f * 4096) s.word_at) _ _ _ apart
      ∙ clear_loop_outside 1024 (f * 4096) s.word_at _
          (λ j lt. words_apart g f k j hk lt (λ e. other (sym e)))

  -- The directory stands on a page.
  dir_word : (j : ℕ) → s.page_directory + 4 * j ≡ s.page_directory / 4096 * 4096 + 4 * j
  dir_word j = omega (arith, sound.aligned)

  pub cleared_table_pde :
      (j : ℕ) → j < 1024 → pde fresh j ≡ (if i == j then f * 4096 + 3 else pde s j)
  cleared_table_pde j hj = elim (Bool-cases (i == j)) [
    | inl e ↦
        ap (pde fresh) (sym (==_eq i j e))
        ∙ update_self (clear_loop 1024 (f * 4096) s.word_at) _ (f * 4096 + 3)
        ∙ rw e refl
    | inr e ↦
        let other : i ≢ j = ground arith in
        let apart : s.page_directory + 4 * i ≢ s.page_directory / 4096 * 4096 + 4 * j =
          λ h. other (omega (arith, dir_word j)) in
        ap fresh.word_at (dir_word j)
        ∙ fresh_word (s.page_directory / 4096) j hj (not_free _ sound.used) apart
        ∙ ap s.word_at (sym (dir_word j))
        ∙ rw e refl
  ]

  -- The directory is not on the new page, and on none of the page of a table.
  dir_apart :
      (g k : ℕ)
      → k < 1024
      → g ≢ s.page_directory / 4096
      → s.page_directory + 4 * i ≢ g * 4096 + 4 * k
  dir_apart g k hk other e =
      words_apart g (s.page_directory / 4096) k i hk hi other (sym (dir_word i) ∙ e)

  fresh_pte_new : (k : ℕ) → k < 1024 → fresh.word_at (f * 4096 + 4 * k) ≡ 0
  fresh_pte_new k hk =
      update_ne (clear_loop 1024 (f * 4096) s.word_at) _ _ _
        (dir_apart f k hk (not_free _ sound.used))
      ∙ clear_loop_inside 1024 (f * 4096) s.word_at k hk

  pub cleared_table_pte : (u : ℕ) → u < 2 ^ 20 → pte fresh u ≡ pte s u
  cleared_table_pte u hu =
      let entry = cleared_table_pde (u / 1024) (omega arith) in
      elim (Bool-cases (i == u / 1024)) [
        | inl e ↦
            let here : pde fresh (u / 1024) ≡ f * 4096 + 3 = entry ∙ rw e refl in
            let odd : ((f * 4096 + 3) % 2 == 0) ≡ false = ground arith in
            let page : (f * 4096 + 3) / 4096 ≡ f = omega arith in
            let none_yet : (pde s (u / 1024) % 2 == 0) ≡ true =
              let even : pde s (u / 1024) % 2 ≡ 0 =
                ap (λ t. pde s t % 2) (sym (==_eq i (u / 1024) e)) ∙ absent in
              ground arith in
            rw (here, odd, page, none_yet) (fresh_pte_new (u % 1024) (omega arith))
        | inr e ↦
            let here : pde fresh (u / 1024) ≡ pde s (u / 1024) = entry ∙ rw e refl in
            elim (Bool-cases (pde s (u / 1024) % 2 == 0)) [
              | inl even ↦ rw (here, even) refl
              | inr odd ↦
                  let there : pde s (u / 1024) % 2 ≡ 1 = ground arith in
                  let g = pde s (u / 1024) / 4096 in
                  rw (here, odd)
                    (fresh_word g (u % 1024) (omega arith)
                      (not_free g (sound.table_used (u / 1024) (omega arith) there))
                      (dir_apart g (u % 1024) (omega arith)
                        (sound.table_apart (u / 1024) (omega arith) there)))
            ]
      ]

  -- A table of `fresh` is the new one or an old one.
  fresh_frame :
      (j : ℕ)
      → j < 1024
      → pde fresh j % 2 ≡ 1
      → ((i ≡ j) × (pde fresh j / 4096 ≡ f))
        ⊎ ((pde s j % 2 ≡ 1) × (pde fresh j / 4096 ≡ pde s j / 4096))
  fresh_frame j hj odd = elim (Bool-cases (i == j)) [
    | inl e ↦
        let here : pde fresh j ≡ f * 4096 + 3 = cleared_table_pde j hj ∙ rw e refl in
        inl (==_eq i j e, ap (λ t. t / 4096) here ∙ omega arith)
    | inr e ↦
        let here : pde fresh j ≡ pde s j = cleared_table_pde j hj ∙ rw e refl in
        inr (ap (λ t. t % 2) (sym here) ∙ odd, ap (λ t. t / 4096) here)
  ]

  bit_used : (g : ℕ) → g < s.pmm.page_count → pmm_get_bit g s.pmm ≡ 1 → pmm_get_bit g q ≡ 1
  bit_used g hg h = ground (arith, bits g (omega (arith, sound.pages.count)))

  new_used : pmm_get_bit f q ≡ 1
  new_used = ground (arith, bits f (omega (arith, sound.pages.count)))

  pub cleared_table-IsSound : IsSound fresh
  cleared_table-IsSound = record {
    pages = valid;
    aligned = sound.aligned;
    below = omega (arith, sound.below);
    used = bit_used _ sound.below sound.used;
    null_used = bit_used 0 (omega (arith, sound.below)) sound.null_used;
    small = λ j hj odd. elim (fresh_frame j hj odd) [
      | inl (e, new) ↦ omega arith
      | inr (old, same) ↦ omega (arith, sound.small j hj old)
    ];
    nonnull = λ j hj odd. elim (fresh_frame j hj odd) [
      | inl (e, new) ↦ let other = not_free 0 sound.null_used in ground arith
      | inr (old, same) ↦ omega (arith, same, sound.nonnull j hj old)
    ];
    table_used = λ j hj odd. elim (fresh_frame j hj odd) [
      | inl (e, new) ↦ ap (λ g. pmm_get_bit g q) new ∙ new_used
      | inr (old, same) ↦
          ap (λ g. pmm_get_bit g q) same
          ∙ bit_used _ (sound.small j hj old) (sound.table_used j hj old)
    ];
    table_apart = λ j hj odd. elim (fresh_frame j hj odd) [
      | inl (e, new) ↦ λ h. not_free _ sound.used (sym new ∙ h)
      | inr (old, same) ↦ λ h. sound.table_apart j hj old (sym same ∙ h)
    ];
    tables_apart = λ j k hj hk odd odd' same. elim (fresh_frame j hj odd) [
      | inl (e, new) ↦ elim (fresh_frame k hk odd') [
        | inl (e', new') ↦ sym e ∙ e'
        | inr (old', same') ↦
            absurd (not_free _ (sound.table_used k hk old') (sym new ∙ same ∙ same'))
      ]
      | inr (old, was) ↦ elim (fresh_frame k hk odd') [
        | inl (e', new') ↦
            absurd (not_free _ (sound.table_used j hj old) (sym new' ∙ sym same ∙ was))
        | inr (old', same') ↦ sound.tables_apart j k hj hk old old' (sym was ∙ same ∙ same')
      ]
    ];
  }
