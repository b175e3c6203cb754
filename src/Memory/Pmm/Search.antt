-- ===== src/Memory/Pmm/Search.antt =====
-- The circular search of `pmm_find_free_page`, and the count of free pages.
use openkernel.Base.{
  ℕ, zero, suc, ◌+◌, ◌-◌, ◌*◌, ◌/◌, ◌%◌, ◌≤◌, ◌<◌, ◌≡◌, refl, ◌∙◌, ap, ◌⊎◌, inl, inr, Bool, arith,
  ◌==◌, if◌then◌else◌, Bool-cases,
}
use native.Mathlib.Decide.{dec_le}
use native.Mathlib.Nat.{add-mul-mod_self_right, mod-eq_of_lt, mod-add-div', mod-lt}
use openkernel.Memory.Pmm.{Pmm, max_pages, u32, candidate, pmm_set_bit, pmm_get_bit, find_loop}
use openkernel.Memory.Pmm.Bitmap.{get_bit-set_bit, pmm_get_bit-le}

-- pages below `n` whose bit is 0
unfoldable pub count_free : ℕ → Pmm → ℕ
count_free zero p = 0
count_free (suc n) p = count_free n p + (1 - pmm_get_bit n p)

count_free_above :
    (n i : ℕ) (value : Bool) (p : Pmm)
    → n ≤ i
    → i < max_pages
    → count_free n (pmm_set_bit i value p) ≡ count_free n p
unfolding count_free
count_free_above zero i value p h hi = refl
count_free_above (suc n) i value p h hi =
    ground (arith, count_free_above n i value p, get_bit-set_bit i n value p)

pub count_free-set_bit :
    (n i : ℕ) (value : Bool) (p : Pmm)
    → i < n
    → n ≤ max_pages
    → count_free n (pmm_set_bit i value p) + (1 - pmm_get_bit i p)
      ≡ count_free n p + (if value then 0 else 1)
unfolding count_free
count_free-set_bit zero i value p h hn = absurd (omega arith)
count_free-set_bit (suc n) i value p h hn = elim (Bool-cases (i == n)) [
  | inl here ↦ ground (arith, count_free_above n i value p, get_bit-set_bit i n value p)
  | inr below ↦ ground (arith, count_free-set_bit n i value p, get_bit-set_bit i n value p)
]

-- Only the bitmap counts.
pub count_free_same :
    (n : ℕ) (p q : Pmm)
    → ((i : ℕ) → pmm_get_bit i q ≡ pmm_get_bit i p)
    → count_free n q ≡ count_free n p
unfolding count_free
count_free_same zero p q h = refl
count_free_same (suc n) p q h = ground (arith, count_free_same n p q h, h n)

pub count_free-le : (n : ℕ) (p : Pmm) → count_free n p ≤ n
unfolding count_free
count_free-le zero p = omega arith
count_free-le (suc n) p = omega (arith, count_free-le n p)

-- Every residue is met within one round trip.
pub round_trip : (h c i : ℕ) → i < c → (n : ℕ) × (n < c) × ((h + n) % c ≡ i)
round_trip h c i lt =
    let small : h % c < c = mod-lt h (omega arith) in
    let parts = mod-add-div' h c in
    elim (dec_le (h % c) i) [
      | yes ahead ↦
          let sum : h + (i - h % c) ≡ i + h / c * c = omega (arith, parts) in
          (
            i - h % c,
            omega arith,
            ap (λ t. t % c) sum ∙ add-mul-mod_self_right i (h / c) c ∙ mod-eq_of_lt lt,
          )
      | no behind ↦
          let sum : h + (i + c - h % c) ≡ i + (h / c + 1) * c = omega (arith, parts) in
          (
            i + c - h % c,
            omega arith,
            ap (λ t. t % c) sum ∙ add-mul-mod_self_right i (h / c + 1) c ∙ mod-eq_of_lt lt,
          )
    ]

-- The search ends at the first candidate that is free, or finds all of them in use.
pub find_loop-result :
    (k n : ℕ) (p : Pmm)
    → 0 < p.page_count
    → ((i : ℕ) × (find_loop k n p ≡ (i, record p { search_hint = u32 (i + 1) % p.page_count }))
        × (pmm_get_bit i p ≡ 0)
        × (i < p.page_count))
      ⊎ ((find_loop k n p ≡ (max_pages, p))
          × ((m : ℕ) → n ≤ m → m < n + k → pmm_get_bit (candidate p m) p ≡ 1))
unfolding find_loop
find_loop-result zero n p pos = inr (refl, λ m h h'. absurd (omega arith))
find_loop-result (suc k) n p pos = elim (Bool-cases (pmm_get_bit (candidate p n) p == 0)) [
  | inl free ↦ inl (candidate p n, rw free, ground arith, mod-lt _ pos)
  | inr used ↦ elim (find_loop-result k (n + 1) p pos) [
    | inl (i, e, free, lt) ↦ inl (i, rw used e, free, lt)
    | inr (e, all) ↦ inr (
      rw used e,
      λ m h h'. elim (Bool-cases (n == m)) [
        | inl here ↦ ground (arith, pmm_get_bit-le (candidate p n) p)
        | inr later ↦ all m (ground arith) (omega arith)
      ],
    )
  ]
]
