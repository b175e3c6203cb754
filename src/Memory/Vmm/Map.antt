-- ===== src/Memory/Vmm/Map.antt =====
-- `map_page_unpaged` and `unmap_page_unpaged`: a page entry that is written.
use openkernel.Base.{
  ℕ, inl, inr, false, ◌+◌, ◌*◌, ◌/◌, ◌%◌, ◌^◌, ◌<◌, ◌≡◌, ◌≢◌, refl, sym, ap, ◌∙◌, ◌==◌,
  if◌then◌else◌, update, update_ne, update_self, arith, Bool-cases, ==_eq,
}
use openkernel.Memory.Vmm.{Vmm}
use openkernel.Memory.Vmm.Tables.{pde, pte, IsSound}

-- Words of different pages have different addresses.
pub words_apart : (d f i k : ℕ) → i < 1024 → k < 1024 → d ≢ f → f * 4096 + 4 * k ≢ d * 4096 + 4 * i
words_apart d f i k hi hk h e = h (omega arith)

-- Only the words of the directory matter.
pub IsSound-same :
    (s : Vmm) (w : ℕ → ℕ)
    → ((i : ℕ) → i < 1024 → pde (record s { word_at = w }) i ≡ pde s i)
    → IsSound s
    → IsSound (record s { word_at = w })
IsSound-same s w h v = record {
  pages = v.pages;
  aligned = v.aligned;
  below = v.below;
  used = v.used;
  null_used = v.null_used;
  small = λ i lt odd. rw (h i lt) (v.small i lt (ap (λ t. t % 2) (sym (h i lt)) ∙ odd));
  nonnull = λ i lt odd. rw (h i lt) (v.nonnull i lt (ap (λ t. t % 2) (sym (h i lt)) ∙ odd));
  table_used = λ i lt odd. rw (h i lt) (v.table_used i lt (ap (λ t. t % 2) (sym (h i lt)) ∙ odd));
  table_apart = λ i lt odd. rw (h i lt) (v.table_apart i lt (ap (λ t. t % 2) (sym (h i lt)) ∙ odd));
  tables_apart = λ i j lt lt' odd odd'.
      rw (h i lt, h j lt')
        (v.tables_apart i j lt lt' (ap (λ t. t % 2) (sym (h i lt)) ∙ odd)
          (ap (λ t. t % 2) (sym (h j lt')) ∙ odd'));
}

-- A word of the table of `v` is written.
abbrev pub stored : Vmm → ℕ → ℕ → Vmm
stored s v w = record s {
  word_at = update s.word_at (pde s (v / 1024) / 4096 * 4096 + 4 * (v % 1024)) w;
}

module _ (s : Vmm) (v w : ℕ) (sound : IsSound s) (lt : v < 2 ^ 20)
    (there : pde s (v / 1024) % 2 ≡ 1) where
  abbrev put : Vmm
  put = stored s v w

  pub stored_pde : (i : ℕ) → i < 1024 → pde put i ≡ pde s i
  stored_pde i hi =
      let d = s.page_directory / 4096 in
      let at : s.page_directory + 4 * i ≡ d * 4096 + 4 * i = omega (arith, sound.aligned) in
      let f = pde s (v / 1024) / 4096 in
      let apart : f * 4096 + 4 * (v % 1024) ≢ s.page_directory + 4 * i = λ e.
        words_apart d f i (v % 1024) hi (omega arith)
          (λ e'. sound.table_apart (v / 1024) (omega arith) there (sym e')) (e ∙ at) in
      update_ne s.word_at _ w _ apart

  pub stored-IsSound : IsSound put
  stored-IsSound = IsSound-same s _ stored_pde sound

  -- The entry of another page is another word.
  entries_apart :
      (u : ℕ)
      → u < 2 ^ 20
      → pde s (u / 1024) % 2 ≡ 1
      → v ≢ u
      → pde s (v / 1024) / 4096 * 4096 + 4 * (v % 1024)
        ≢ pde s (u / 1024) / 4096 * 4096 + 4 * (u % 1024)
  entries_apart u hu odd other e =
      let frames : pde s (v / 1024) / 4096 ≡ pde s (u / 1024) / 4096 = omega arith in
      let same : v / 1024 ≡ u / 1024 =
        sound.tables_apart (v / 1024) (u / 1024) (omega arith) (omega arith) there odd frames in
      other (omega arith)

  -- What a look-up in `put` reads.
  put_read :
      (u : ℕ)
      → u < 2 ^ 20
      → pte put u ≡ (
          if pde s (u / 1024) % 2 == 0
          then 0
          else put.word_at (pde s (u / 1024) / 4096 * 4096 + 4 * (u % 1024)))
  put_read u hu =
      let same : pde put (u / 1024) ≡ pde s (u / 1024) = stored_pde (u / 1024) (omega arith) in
      rw same refl

  pub stored_pte : (u : ℕ) → u < 2 ^ 20 → pte put u ≡ (if v == u then w else pte s u)
  stored_pte u hu = elim (Bool-cases (v == u)) [
    | inl e ↦
        let odd : (pde s (v / 1024) % 2 == 0) ≡ false = ground arith in
        ap (pte put) (sym (==_eq v u e)) ∙ put_read v lt ∙ rw (e, odd) (update_self s.word_at _ w)
    | inr e ↦ elim (Bool-cases (pde s (u / 1024) % 2 == 0)) [
      | inl even ↦ put_read u hu ∙ rw (e, even) refl
      | inr odd ↦
          let other = entries_apart u hu (ground arith) (ground arith) in
          put_read u hu ∙ rw (e, odd) (update_ne s.word_at _ w _ other)
    ]
  ]
