-- ===== src/Interrupts/Install.antt =====
-- The gates after `idt_init` and `isr_install_all`.
use Prim.Native.Nat.{bit_and}
use openkernel.Base.{
  ℕ, zero, suc, ◌+◌, ◌-◌, ◌*◌, ◌/◌, ◌%◌, ◌^◌, ◌<◌, ◌≡◌, inl, inr, ==_eq, refl, ap, ◌∙◌, true, false,
  ◌&&◌, List, [], ◌∷◌, ◌++◌, ltb, leb, ◌==◌, if◌then◌else◌, arith, Bool-cases,
}
use openkernel.Base.Bits.{bit_and_mask}
use openkernel.Interrupts.{
  Gate, Interrupts, idt_set_entry_raw, idt_init, clear_entries, clear_handlers, installs, install,
  isr_install_all,
}

-- What the processor reads in a gate: the address, the segment, the flags.
abbrev pub view : Gate → ℕ × ℕ × ℕ
view g = (g.base_low + g.base_high * 2 ^ 16, g.selector, g.flags)

-- The gates that the kernel means to have.
abbrev pub expected : (ℕ → ℕ) → (ℕ → ℕ) → ℕ → ℕ × ℕ × ℕ
expected isr irq n =
    if ltb n 32
    then (isr n, 8, 0x8e)
    else (if ltb n 48
        then (irq (n - 32), 8, 0x8e)
        else (if n == 0x80 then (isr 0x80, 8, 0xee) else (0, 0, 0)))

view-set_entry :
    (num base selector flags : ℕ) (s : Interrupts) (n : ℕ)
    → base < 2 ^ 32
    → selector < 2 ^ 16
    → flags < 2 ^ 8
    → view ((idt_set_entry_raw num base selector flags s).entries n)
      ≡ (if num == n then (base, selector, flags) else view (s.entries n))
unfolding idt_set_entry_raw
view-set_entry num base selector flags s n h h' h'' = elim (Bool-cases (num == n)) [
  | inl e ↦
      let low : bit_and base 0xffff + bit_and (base / 2 ^ 16) 0xffff * 2 ^ 16 ≡ base =
        omega (arith, bit_and_mask 16 base, bit_and_mask 16 (base / 2 ^ 16)) in
      let small : selector % 2 ^ 16 ≡ selector = omega arith in
      let byte : flags % 2 ^ 8 ≡ flags = omega arith in rw (e, low, small, byte) refl
  | inr e ↦ rw e refl
]

view-clear_entries :
    (k : ℕ) (s : Interrupts) (n : ℕ) → n < k → view ((clear_entries k s).entries n) ≡ (0, 0, 0)
unfolding clear_entries
view-clear_entries zero s n h = absurd (omega arith)
view-clear_entries (suc k) s n h =
    let set =
      view-set_entry k 0 0 0 (clear_entries k s) n (omega arith) (omega arith) (omega arith) in
    elim (Bool-cases (k == n)) [
      | inl e ↦ set ∙ rw e refl
      | inr e ↦ set ∙ rw e (view-clear_entries k s n (ground arith))
    ]

clear_handlers_entries : (k : ℕ) (s : Interrupts) → (clear_handlers k s).entries ≡ s.entries
unfolding clear_handlers
clear_handlers_entries zero s = refl
clear_handlers_entries (suc k) s = clear_handlers_entries k s

-- `k` gates from the number `i` on, with the stubs `f`.
abbrev gates : ℕ → ℕ → (ℕ → ℕ) → List (ℕ × ℕ × ℕ)
gates zero i f = []
gates (suc k) i f = (i, f i, 0x8e) ∷ gates k (i + 1) f

install-append :
    (xs ys : List (ℕ × ℕ × ℕ)) (s : Interrupts) → install (xs ++ ys) s ≡ install ys (install xs s)
install-append [] ys s = refl
install-append (x ∷ xs) ys s = install-append xs ys (idt_set_entry_raw x.0 x.1 8 x.2 s)

view-gates :
    (k i : ℕ) (f : ℕ → ℕ) (s : Interrupts) (n : ℕ)
    → ((j : ℕ) → f j < 2 ^ 32)
    → view ((install (gates k i f) s).entries n)
      ≡ (if leb i n && ltb n (i + k) then (f n, 8, 0x8e) else view (s.entries n))
view-gates zero i f s n h =
    let out : (leb i n && ltb n (i + 0)) ≡ false = ground arith in rw out refl
view-gates (suc k) i f s n h =
    let set = view-set_entry i (f i) 8 0x8e s n (h i) (omega arith) (omega arith) in
    let rest = view-gates k (i + 1) f (idt_set_entry_raw i (f i) 8 0x8e s) n h in
    elim (Bool-cases (i == n)) [
      | inl e ↦
          let here : i ≡ n = ==_eq i n e in
          let after : (leb (i + 1) n && ltb n (i + 1 + k)) ≡ false = ground arith in
          let inside : (leb i n && ltb n (i + suc k)) ≡ true = ground arith in
          rest ∙ rw (after, inside) (set ∙ rw e (ap (λ j. (f j, 8, 0x8e)) here))
      | inr e ↦
          let same : (leb (i + 1) n && ltb n (i + 1 + k)) ≡ (leb i n && ltb n (i + suc k)) =
            ground arith in
          rest
          ∙ rw same (
              ap (λ v. if leb i n && ltb n (i + suc k) then (f n, 8, 0x8e) else v)
                (set ∙ rw e refl))
    ]

-- The calls are two runs of gates and the one of the system call.
installs-gates :
    (isr irq : ℕ → ℕ)
    → installs isr irq
      ≡ gates 32 0 isr ++ (gates 16 32 (λ n. irq (n - 32)) ++ ((0x80, isr 0x80, 0xee) ∷ []))
installs-gates isr irq = refl

-- After `idt_init` and `isr_install_all`, the processor finds in gates 0 to 31 the stubs of the
-- exceptions and in gates 32 to 47 those of the interrupt lines, for the kernel alone, in gate 128
-- the stub of the system call, for every ring, and in every other gate nothing. The addresses of
-- the stubs are of 32 bits.
pub isr_install_all_lem :
    (isr irq : ℕ → ℕ) (at : ℕ) (s : Interrupts) (n : ℕ)
    → ((j : ℕ) → isr j < 2 ^ 32)
    → ((j : ℕ) → irq j < 2 ^ 32)
    → n < 256
    → view ((isr_install_all isr irq (idt_init at s).0).entries n) ≡ expected isr irq n
unfolding isr_install_all idt_init
isr_install_all_lem isr irq at s n h h' lt =
    let f = λ (j : ℕ). irq (j - 32) in
    let s0 = (idt_init at s).0 in
    let s1 = install (gates 32 0 isr) s0 in
    let s2 = install (gates 16 32 f) s1 in
    let blank : view (s0.entries n) ≡ (0, 0, 0) =
      ap (λ e. view (e n)) (clear_handlers_entries 16 _) ∙ view-clear_entries 256 _ n lt in
    let low = view-gates 32 0 isr s0 n h in
    let high = view-gates 16 32 f s1 n (λ j. h' (j - 32)) in
    let last = view-set_entry 0x80 (isr 0x80) 8 0xee s2 n (h 0x80) (omega arith) (omega arith) in
    last
    ∙ ap (λ v. if 0x80 == n then (isr 0x80, 8, 0xee) else v) high
    ∙ ap
        (λ v.
          if 0x80 == n
          then (isr 0x80, 8, 0xee)
          else (if leb 32 n && ltb n 48 then (irq (n - 32), 8, 0x8e) else v))
        (low ∙ ap (λ v. if leb 0 n && ltb n 32 then (isr n, 8, 0x8e) else v) blank)
    ∙ ground arith
