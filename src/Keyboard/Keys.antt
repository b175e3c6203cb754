-- ===== src/Keyboard/Keys.antt =====
-- Modifiers and characters in src/kernel/keyboard.c.
use openkernel.Base.{
  ℕ, zero, suc, ◌+◌, ◌-◌, ◌%◌, ◌^◌, ◌≤◌, ◌<◌, ◌≡◌, ◌↔◌, refl, ◌∙◌, ◌⊎◌, inl, inr, Bool, true, false,
  none, some, List, [], ◌∷◌, arith, ltb, ◌==◌, if◌then◌else◌, Bool-cases, ==_eq, length, get_elem?,
}
use Prim.Native.Nat.{bit_and, bit_or, bit_xor}
use openkernel.Base.Bits.{bit, bit-lt, bit-and, bit-or, bit-xor, bit-pow, bit-mask, bit_and_sign}
use openkernel.Keyboard.{
  Layout, Keyboard, layout_us, layout_uk, layout_it, layout_fr, layout_de, layout_es, layout_pt,
  layout_no, layout_dk, layout_se, layout_fi, layout_nl, layout_be, layout_pl, layout_cz, layout_sk,
  layout_hu, layout_ro, layout_tr,
}
use openkernel.Keyboard.Tables.{lower_table, upper_table}
use openkernel.Keyboard.Events.{any_bit, clear_bits, track_modifiers, keyboard_scancode_to_ascii}

-- What a scancode does to the modifiers: a key goes down or up, the lock toggles, or nothing.
pub data Modifier : Type 0 where
  held : ℕ → Bool → Modifier
  toggled : ℕ → Modifier
  no_modifier : Modifier

-- The modifier keys of scancode set 1 and the bit of each: left and right shift 3 and 4, alt 5,
-- control 6, caps lock 0. A release is the press with 0x80 added.
abbrev pub modifier_of : ℕ → Modifier
modifier_of scancode =
    let key = scancode % 128 in
    let down = ltb scancode 128 in
    if key == 0x2A
    then held 3 down
    else if key == 0x36
    then held 4 down
    else if key == 0x38
    then held 5 down
    else if key == 0x1D
    then held 6 down
    else if scancode == 0x3A
    then toggled 0
    else no_modifier

abbrev pub bit_of : Bool → ℕ
bit_of true = 1
bit_of false = 0

-- Bit `k` of the modifiers after the event, of which it was `b` before.
abbrev pub bit_after : Modifier → ℕ → ℕ → ℕ
bit_after (held i down) k b = if i == k then bit_of down else b
bit_after (toggled i) k b = if i == k then 1 - b else b
bit_after no_modifier k b = b

bit-cases : (k m : ℕ) → (bit k m ≡ 0) ⊎ (bit k m ≡ 1)
bit-cases k m =
    let lt = bit-lt k m in
    elim (Bool-cases (bit k m == 0)) [
      | inl low ↦ inl (==_eq _ _ low)
      | inr high ↦ inr (ground arith)
    ]

set_bit-after : (i k m : ℕ) → bit k (bit_or m (2 ^ i)) ≡ (if i == k then 1 else bit k m)
set_bit-after i k m = let lt = bit-lt k m in rw (bit-or k m (2 ^ i), bit-pow k i) (ground arith)

toggle_bit-after :
    (i k m : ℕ) → bit k (bit_xor m (2 ^ i)) ≡ (if i == k then 1 - bit k m else bit k m)
toggle_bit-after i k m =
    rw (bit-xor k m (2 ^ i), bit-pow k i)
      (elim (bit-cases k m) [
        | inl low ↦ elim (Bool-cases (i == k)) [
          | inl same ↦ rw (low, same) refl
          | inr other ↦ rw (low, other) refl
        ]
        | inr high ↦ elim (Bool-cases (i == k)) [
          | inl same ↦ rw (high, same) refl
          | inr other ↦ rw (high, other) refl
        ]
      ])

clear_bit-after :
    (i k m : ℕ) → k < 8 → bit k (clear_bits m (2 ^ i)) ≡ (if i == k then 0 else bit k m)
clear_bit-after i k m h =
    let lt = bit-lt k m in
    let ones : bit k 0xff ≡ 1 = bit-mask k 8 ∙ ground arith in
    rw (bit-and k m (bit_xor 0xff (2 ^ i)), bit-xor k 0xff (2 ^ i), ones, bit-pow k i)
      (elim (bit-cases k m) [
        | inl low ↦ elim (Bool-cases (i == k)) [
          | inl same ↦ rw (low, same) refl
          | inr other ↦ rw (low, other) refl
        ]
        | inr high ↦ elim (Bool-cases (i == k)) [
          | inl same ↦ rw (high, same) refl
          | inr other ↦ rw (high, other) refl
        ]
      ])

-- A scancode that is neither the press nor the release of a key is not of that key.
not_key :
    (scancode key : ℕ)
    → scancode < 256
    → (scancode == key) ≡ false
    → (scancode == key + 128) ≡ false
    → (scancode % 128 == key) ≡ false
not_key scancode key h press release = ground arith

-- Each of the eight modifier bits after a scancode: a modifier key sets its bit when it goes down
-- and clears it when it goes up, caps lock toggles when it goes down, and nothing else changes.
pub track_modifiers_lem :
    (scancode m k : ℕ)
    → scancode < 256
    → k < 8
    → bit k (track_modifiers scancode m) ≡ bit_after (modifier_of scancode) k (bit k m)
unfolding track_modifiers
track_modifiers_lem scancode m k h h' = elim (Bool-cases (scancode == 0x2A)) [
  | inl e ↦ rw (==_eq scancode 0x2A e) (set_bit-after 3 k m)
  | inr not_2a ↦ elim (Bool-cases (scancode == 0xAA)) [
    | inl e ↦ rw (==_eq scancode 0xAA e) (clear_bit-after 3 k m h')
    | inr not_aa ↦ elim (Bool-cases (scancode == 0x36)) [
      | inl e ↦ rw (==_eq scancode 0x36 e) (set_bit-after 4 k m)
      | inr not_36 ↦ elim (Bool-cases (scancode == 0xB6)) [
        | inl e ↦ rw (==_eq scancode 0xB6 e) (clear_bit-after 4 k m h')
        | inr not_b6 ↦ elim (Bool-cases (scancode == 0x38)) [
          | inl e ↦ rw (==_eq scancode 0x38 e) (set_bit-after 5 k m)
          | inr not_38 ↦ elim (Bool-cases (scancode == 0xB8)) [
            | inl e ↦ rw (==_eq scancode 0xB8 e) (clear_bit-after 5 k m h')
            | inr not_b8 ↦ elim (Bool-cases (scancode == 0x1D)) [
              | inl e ↦ rw (==_eq scancode 0x1D e) (set_bit-after 6 k m)
              | inr not_1d ↦ elim (Bool-cases (scancode == 0x9D)) [
                | inl e ↦ rw (==_eq scancode 0x9D e) (clear_bit-after 6 k m h')
                | inr not_9d ↦ elim (Bool-cases (scancode == 0x3A)) [
                  | inl e ↦ rw (==_eq scancode 0x3A e) (toggle_bit-after 0 k m)
                  | inr not_3a ↦
                      let key_2a : (scancode % 128 == 0x2A) ≡ false = not_key _ _ h not_2a not_aa in
                      let key_36 : (scancode % 128 == 0x36) ≡ false = not_key _ _ h not_36 not_b6 in
                      let key_38 : (scancode % 128 == 0x38) ≡ false = not_key _ _ h not_38 not_b8 in
                      let key_1d : (scancode % 128 == 0x1D) ≡ false = not_key _ _ h not_1d not_9d in
                      rw
                        (
                          not_2a, not_aa, not_36, not_b6, not_38, not_b8, not_1d, not_9d, not_3a,
                          key_2a, key_36, key_38, key_1d,
                        )
                        refl
                ]
              ]
            ]
          ]
        ]
      ]
    ]
  ]
]

any_bit-release : (scancode : ℕ) → scancode < 128 → any_bit scancode 0x80 ≡ false
any_bit-release scancode h =
    let low : bit_and scancode 0x80 ≡ 0 = omega (arith, bit_and_sign scancode) in rw low refl

length-tables : (l : Layout) → (length (lower_table l) ≡ 60) × (length (upper_table l) ≡ 60)
unfolding lower_table upper_table
length-tables layout_us = (refl, refl)
length-tables layout_uk = (refl, refl)
length-tables layout_it = (refl, refl)
length-tables layout_fr = (refl, refl)
length-tables layout_de = (refl, refl)
length-tables layout_es = (refl, refl)
length-tables layout_pt = (refl, refl)
length-tables layout_no = (refl, refl)
length-tables layout_dk = (refl, refl)
length-tables layout_se = (refl, refl)
length-tables layout_fi = (refl, refl)
length-tables layout_nl = (refl, refl)
length-tables layout_be = (refl, refl)
length-tables layout_pl = (refl, refl)
length-tables layout_cz = (refl, refl)
length-tables layout_sk = (refl, refl)
length-tables layout_hu = (refl, refl)
length-tables layout_ro = (refl, refl)
length-tables layout_tr = (refl, refl)

get_elem-within : (xs : List ℕ) (i : ℕ) → i < length xs → (x : ℕ) × (get_elem? xs i ≡ some x)
get_elem-within [] i h = absurd (omega arith)
get_elem-within (x ∷ xs) zero h = (x, refl)
get_elem-within (x ∷ xs) (suc i) h = get_elem-within xs i (omega arith)

get_elem-beyond : (xs : List ℕ) (i : ℕ) → length xs ≤ i → get_elem? xs i ≡ none
get_elem-beyond [] i h = refl
get_elem-beyond (x ∷ xs) zero h = absurd (omega arith)
get_elem-beyond (x ∷ xs) (suc i) h = get_elem-beyond xs i (omega arith)

-- In every layout and with any modifiers, the conversion of a key press reads past the end of its
-- 60-entry table for the scancodes from 0x3C to 0x58, and for no other scancode.
pub keyboard_scancode_to_ascii-none :
    (scancode : ℕ) (kb : Keyboard)
    → scancode < 128
    → keyboard_scancode_to_ascii scancode kb ≡ none ↔ (60 ≤ scancode) × (scancode < 0x59)
unfolding keyboard_scancode_to_ascii
keyboard_scancode_to_ascii-none scancode kb h =
    let press = any_bit-release scancode h in
    let (lower, upper) = length-tables kb.current_layout in
    elim (Bool-cases (ltb scancode 0x59)) [
      | inr past ↦ rw (press, past) (λ e. absurd cc, λ (lo, hi). absurd (ground arith))
      | inl known ↦ elim (Bool-cases (ltb scancode 60)) [
        | inl within ↦
            let (c, e) = get_elem-within (lower_table kb.current_layout) scancode (ground arith) in
            let (u, e') = get_elem-within (upper_table kb.current_layout) scancode (ground arith) in
            rw (press, known, e, e') (λ e. absurd cc, λ (lo, hi). absurd (ground arith))
        | inr beyond ↦
            let e = get_elem-beyond (lower_table kb.current_layout) scancode (ground arith) in
            rw (press, known, e) (λ _. (ground arith, ground arith), λ _. refl)
      ]
    ]
