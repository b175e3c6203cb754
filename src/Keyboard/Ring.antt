-- ===== src/Keyboard/Ring.antt =====
-- The ring of scancodes in src/kernel/keyboard.c as a queue.
use openkernel.Base.{
  ℕ, zero, suc, ◌+◌, ◌-◌, ◌%◌, ◌≤◌, ◌<◌, ◌≡◌, ◌≢◌, refl, sym, ap, ◌∙◌, ◌⊎◌, inl, inr, Bool, true,
  false, ◌&&◌, ◌||◌, not, List, [], ◌∷◌, ◌++◌, arith, ◌==◌, if◌then◌else◌, Bool-cases, length,
  update, update_ne, update_self, ==_eq,
}
use Prim.Native.Nat.{bit_or}
use openkernel.Keyboard.{Keyboard, keybuf_size, keyboard_lctrl, keyboard_rctrl}
use openkernel.Keyboard.Events.{
  any_bit, track_modifiers, extended_key, buffer_key, plain_key, keyboard_irq_handler,
  keyboard_get_scancode,
}

-- `k` keys of the ring from index `t` on
abbrev waiting : ℕ → ℕ → (ℕ → ℕ) → List ℕ
waiting zero t buffer = []
waiting (suc k) t buffer = buffer t ∷ waiting k ((t + 1) % 64) buffer

abbrev count : Keyboard → ℕ
count kb = (kb.keybuf_head + 64 - kb.keybuf_tail) % 64

-- The keys that wait, the oldest first.
unfoldable pub pending : Keyboard → List ℕ
pending kb = waiting (count kb) kb.keybuf_tail kb.key_buffer

pub record IsRing (kb : Keyboard) : Type 0 where
  pub head : kb.keybuf_head < keybuf_size
  pub tail : kb.keybuf_tail < keybuf_size

length-waiting : (k t : ℕ) (buffer : ℕ → ℕ) → length (waiting k t buffer) ≡ k
length-waiting zero t buffer = refl
length-waiting (suc k) t buffer = omega (arith, length-waiting k ((t + 1) % 64) buffer)

waiting_other :
    (k t i x : ℕ) (buffer : ℕ → ℕ)
    → t < 64
    → k < 64
    → i ≡ (t + k) % 64
    → (j : ℕ) → j ≤ k
    → waiting j ((t + (k - j)) % 64) (update buffer i x) ≡ waiting j ((t + (k - j)) % 64) buffer
waiting_other k t i x buffer t_lt k_lt at zero le = refl
waiting_other k t i x buffer t_lt k_lt at (suc j) le =
    let ne : i ≢ (t + (k - suc j)) % 64 = λ e. omega arith in
    let next : ((t + (k - suc j)) % 64 + 1) % 64 ≡ (t + (k - j)) % 64 = omega arith in
    rw (update_ne buffer i x ((t + (k - suc j)) % 64) ne, next)
      (ap (◌∷◌ (buffer ((t + (k - suc j)) % 64)))
        (waiting_other k t i x buffer t_lt k_lt at j (omega arith)))

waiting_snoc :
    (k t : ℕ) (buffer : ℕ → ℕ)
    → t < 64
    → waiting (suc k) t buffer ≡ waiting k t buffer ++ (buffer ((t + k) % 64) ∷ [])
waiting_snoc zero t buffer lt =
    let same : t ≡ (t + 0) % 64 = omega arith in ap (λ i. buffer i ∷ []) same
waiting_snoc (suc k) t buffer lt =
    let same : ((t + 1) % 64 + k) % 64 ≡ (t + suc k) % 64 = omega arith in
    ap (◌∷◌ (buffer t)) (rw (sym same) (waiting_snoc k ((t + 1) % 64) buffer (omega arith)))

length-pending : (kb : Keyboard) → length (pending kb) ≡ count kb
unfolding pending
length-pending kb = length-waiting _ _ _

-- A full ring drops the key.
abbrev pub enqueue : ℕ → List ℕ → List ℕ
enqueue scancode keys = if length keys == 63 then keys else keys ++ (scancode ∷ [])

enqueue_full : (x : ℕ) (keys : List ℕ) → length keys ≡ 63 → enqueue x keys ≡ keys
enqueue_full x keys h = ground arith

enqueue_room : (x : ℕ) (keys : List ℕ) → length keys ≢ 63 → enqueue x keys ≡ keys ++ (x ∷ [])
enqueue_room x keys h = ground arith

waiting_push :
    (k t i x : ℕ) (buffer : ℕ → ℕ)
    → t < 64
    → k < 64
    → i ≡ (t + k) % 64
    → waiting (suc k) t (update buffer i x) ≡ waiting k t buffer ++ (x ∷ [])
waiting_push k t i x buffer lt k_lt at =
    let start : (t + (k - k)) % 64 ≡ t = omega arith in
    let kept : waiting k t (update buffer i x) ≡ waiting k t buffer =
      rw (sym start) (waiting_other k t i x buffer lt k_lt at k (omega arith)) in
    rw (waiting_snoc k t (update buffer i x) lt, kept, sym at, update_self buffer i x) refl

count_full :
    (head tail : ℕ)
    → head < 64
    → tail < 64
    → ((head + 1) % 64 == tail) ≡ true
    → (head + 64 - tail) % 64 ≡ 63
count_full head tail h t e = omega (arith, ==_eq _ _ e)

count_room :
    (head tail : ℕ)
    → head < 64
    → tail < 64
    → ((head + 1) % 64 == tail) ≡ false
    → ((head + 1) % 64 + 64 - tail) % 64 ≡ suc ((head + 64 - tail) % 64)
count_room head tail h t e = let ne : (head + 1) % 64 ≢ tail = ground arith in omega arith

buffer_key_lem :
    (scancode : ℕ) (kb : Keyboard)
    → IsRing kb
    → IsRing (buffer_key scancode kb)
      × (pending (buffer_key scancode kb)
          ≡ (if any_bit scancode 0x80 then pending kb else enqueue scancode (pending kb)))
unfolding buffer_key pending
buffer_key_lem scancode kb ring = elim (Bool-cases (any_bit scancode 0x80)) [
  | inl released ↦ rw released (ring, refl)
  | inr pressed ↦ elim (Bool-cases ((kb.keybuf_head + 1) % 64 == kb.keybuf_tail)) [
    | inl full ↦
        let last : count kb ≡ 63 =
          count_full kb.keybuf_head kb.keybuf_tail ring.head ring.tail full in
        let len = length-waiting (count kb) kb.keybuf_tail kb.key_buffer in
        rw (pressed, full) (ring, sym (enqueue_full scancode _ (len ∙ last)))
    | inr room ↦
        rw (pressed, room)
          (
            record { head = omega arith; tail = ring.tail },
            let more = count_room kb.keybuf_head kb.keybuf_tail ring.head ring.tail room in
                let len = length-waiting (count kb) kb.keybuf_tail kb.key_buffer in
                let short : count kb < 63 = omega arith in
                rw more (
                  waiting_push (count kb) kb.keybuf_tail kb.keybuf_head scancode kb.key_buffer
                    ring.tail (omega arith) (omega (arith, ring.head, ring.tail))
                  ∙ sym (enqueue_room scancode _ (λ e. omega arith))),
          )
  ]
]

-- Whether the handler takes the scancode for the key of Ctrl+T or its release.
abbrev is_toggle : ℕ → Keyboard → Bool
is_toggle scancode kb =
    (scancode == 0x94)
    || ((scancode == 0x14)
        && (not kb.t_key_pressed && any_bit kb.modifiers (bit_or keyboard_lctrl keyboard_rctrl)))

-- Whether the scancode is a key that waits to be read.
abbrev pub is_key : ℕ → Keyboard → Bool
is_key scancode kb =
    not (scancode == 0xE0)
    && not kb.extended_mode
    && not (is_toggle scancode kb)
    && not (any_bit scancode 0x80)

-- What the ring of `kb'` holds after a scancode in `kb`, enqueued if `key` holds.
pub record Received (scancode : ℕ) (kb : Keyboard) (key : Bool) (kb' : Keyboard) : Type 0 where
  pub ring : IsRing kb'
  pub keys : pending kb' ≡ (if key then enqueue scancode (pending kb) else pending kb)

same_ring :
    (scancode : ℕ) (kb kb' : Keyboard) (key : Bool)
    → IsRing kb
    → kb'.keybuf_head ≡ kb.keybuf_head
    → kb'.keybuf_tail ≡ kb.keybuf_tail
    → kb'.key_buffer ≡ kb.key_buffer
    → key ≡ false
    → Received scancode kb key kb'
unfolding pending
same_ring scancode kb kb' key ring head tail buffer quiet = record {
  ring = record { head = rw head ring.head; tail = rw tail ring.tail };
  keys = rw (quiet, head, tail, buffer) refl;
}

plain_key-Received :
    (scancode : ℕ) (kb : Keyboard)
    → IsRing kb
    → Received scancode kb
        (not (is_toggle scancode kb) && not (any_bit scancode 0x80))
        (plain_key scancode kb)
unfolding plain_key
plain_key-Received scancode kb ring =
    let (ring_after, keys_after) = buffer_key_lem scancode kb ring in
    elim (Bool-cases (scancode == 0x14)) [
      | inl pressed ↦
          elim (Bool-cases
            (not kb.t_key_pressed && any_bit kb.modifiers (bit_or keyboard_lctrl keyboard_rctrl))) [
              | inl ctrl ↦
                  rw (pressed, ctrl, plain_key)
                    (same_ring scancode kb _ _ ring refl refl refl (ground arith))
              | inr other ↦
                  rw (pressed, other, plain_key)
                    (record { ring = ring_after; keys = keys_after ∙ ground arith })
            ]
      | inr other_key ↦ elim (Bool-cases (scancode == 0x94)) [
        | inl released ↦
            rw (other_key, released, plain_key)
              (same_ring scancode kb _ _ ring refl refl refl (ground arith))
        | inr other ↦
            rw (other_key, other, plain_key)
              (record { ring = ring_after; keys = keys_after ∙ ground arith })
      ]
    ]

extended_key-same :
    (scancode : ℕ) (kb : Keyboard)
    → ((extended_key scancode kb).keybuf_head ≡ kb.keybuf_head)
      × ((extended_key scancode kb).keybuf_tail ≡ kb.keybuf_tail)
      × ((extended_key scancode kb).key_buffer ≡ kb.key_buffer)
unfolding extended_key
extended_key-same scancode kb = ground arith

-- The interrupt handler keeps the ring in bounds; it appends the scancode of a key press to the
-- keys that wait, unless 63 wait already, and no other scancode changes them: not the prefix E0,
-- nor what follows it, nor a release, nor Ctrl+T.
pub keyboard_irq_handler-Received :
    (scancode : ℕ) (kb : Keyboard)
    → IsRing kb
    → Received scancode kb
        (is_key scancode (record kb { modifiers = track_modifiers scancode kb.modifiers }))
        (keyboard_irq_handler scancode kb)
unfolding keyboard_irq_handler pending
keyboard_irq_handler-Received scancode kb ring = elim (Bool-cases (scancode == 0xE0)) [
  | inl prefix ↦
      rw (prefix, keyboard_irq_handler) (same_ring scancode kb _ _ ring refl refl refl refl)
  | inr no_prefix ↦ elim (Bool-cases kb.extended_mode) [
    | inl extended ↦
        let (head, tail, buffer) = extended_key-same scancode (record kb {
          keyboard_debug_counter = kb.keyboard_debug_counter + 1;
          modifiers = track_modifiers scancode kb.modifiers;
          extended_mode = false;
        }) in
        simp (no_prefix, extended, keyboard_irq_handler)
          (same_ring scancode kb _ _ ring head tail buffer refl)
    | inr normal ↦
        let r =
          plain_key-Received scancode
            (record kb {
              keyboard_debug_counter = kb.keyboard_debug_counter + 1;
              modifiers = track_modifiers scancode kb.modifiers;
              extended_mode = false;
            })
            (record { head = ring.head; tail = ring.tail }) in
        simp (no_prefix, normal, keyboard_irq_handler) (record { ring = r.ring; keys = r.keys })
  ]
]

-- `keyboard_get_scancode` takes the oldest key that waits, or returns 0 and changes nothing.
pub keyboard_get_scancode_lem :
    (kb : Keyboard)
    → IsRing kb
    → ((pending kb ≡ []) × (keyboard_get_scancode kb ≡ (0, kb)))
      ⊎ ((x : ℕ) × (xs : List ℕ) × (kb' : Keyboard) × (pending kb ≡ x ∷ xs)
          × (keyboard_get_scancode kb ≡ (x, kb'))
          × (pending kb' ≡ xs)
          × IsRing kb')
unfolding keyboard_get_scancode pending
keyboard_get_scancode_lem kb ring = elim (Bool-cases (kb.keybuf_tail == kb.keybuf_head)) [
  | inl empty ↦
      let none_wait : count kb ≡ 0 = omega (arith, ==_eq _ _ empty, ring.head) in
      inl (rw none_wait refl, rw empty refl)
  | inr some_wait ↦
      let after = record kb { keybuf_tail = (kb.keybuf_tail + 1) % keybuf_size } in
      let ne : kb.keybuf_tail ≢ kb.keybuf_head = ground arith in
      let more : count kb ≡ suc (count after) = omega (arith, ring.head, ring.tail) in
      inr (
        kb.key_buffer kb.keybuf_tail,
        pending after,
        after,
        rw more refl,
        rw some_wait refl,
        refl,
        record { head = ring.head; tail = omega arith },
      )
]
