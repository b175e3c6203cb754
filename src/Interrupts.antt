-- ===== src/Interrupts.antt =====
-- The interrupt tables of src/kernel/idt.c and isr_setup.c: the gates, the handlers of the interrupt
-- lines, and what the common handlers do. An effect on a device is an entry of a list, in the order
-- of the code. The addresses of the assembly stubs and of the gate array are arguments; a handler is
-- its address, 0 for none. An `int` is its 32-bit pattern. The gates are those of the array: a
-- number from 256 on is outside the model. The output of `printk` is left out.
pub mod Install
mod Tests
use Prim.Native.Nat.{bit_and, bit_or}
use openkernel.Base.{
  ℕ, zero, suc, ◌+◌, ◌-◌, ◌*◌, ◌/◌, ◌%◌, ◌^◌, ◌≡◌, Bool, true, false, ◌&&◌, List, [], ◌∷◌, ◌++◌,
  ltb, leb, ◌==◌, if◌then◌else◌, update,
}

-- `idt_entry_t`
pub record Gate : Type 0 where
  pub base_low : ℕ
  pub selector : ℕ
  pub always0 : ℕ
  pub flags : ℕ
  pub base_high : ℕ

-- `idt_entries`, `idt_ptr` and `irq_handlers`
pub record Interrupts : Type 0 where
  pub entries : ℕ → Gate
  pub limit : ℕ
  pub base : ℕ
  pub irq_handlers : ℕ → ℕ

-- What the code does to the outside.
pub data Effect : Type 0 where
  outb : ℕ → ℕ → Effect
  load_idt : Effect
  heartbeat : ℕ → Effect
  call : ℕ → Effect
  syscall : ℕ → ℕ → Effect
  halt : Effect

unfoldable pub idt_set_entry_raw : ℕ → ℕ → ℕ → ℕ → Interrupts → Interrupts
idt_set_entry_raw num base selector flags s = record s {
  entries = update s.entries num (record {
    base_low = bit_and base 0xffff;
    selector = selector % 2 ^ 16;
    always0 = 0;
    flags = flags % 2 ^ 8;
    base_high = bit_and (base / 2 ^ 16) 0xffff;
  });
}

unfoldable pub pic_remap : List Effect
pic_remap =
    outb 0x20 (bit_or 0x10 0x11)
    ∷ outb 0xa0 (bit_or 0x10 0x11)
    ∷ outb 0x21 0x20
    ∷ outb 0xa1 0x28
    ∷ outb 0x21 0x04
    ∷ outb 0xa1 0x02
    ∷ outb 0x21 0x01
    ∷ outb 0xa1 0x01
    ∷ outb 0x21 0xfc
    ∷ outb 0xa1 0xff
    ∷ []

unfoldable pub pic_send_eoi : ℕ → List Effect
pic_send_eoi irq = (if leb 8 irq then outb 0xa0 0x20 ∷ [] else []) ++ (outb 0x20 0x20 ∷ [])

-- `for (i = 0; i < k; i++) idt_set_entry_raw(i, 0, 0, 0);`
unfoldable pub clear_entries : ℕ → Interrupts → Interrupts
clear_entries zero s = s
clear_entries (suc k) s = idt_set_entry_raw k 0 0 0 (clear_entries k s)

-- `for (i = 0; i < k; i++) irq_handlers[i] = 0;`
unfoldable pub clear_handlers : ℕ → Interrupts → Interrupts
clear_handlers zero s = s
clear_handlers (suc k) s =
    let t = clear_handlers k s in record t { irq_handlers = update t.irq_handlers k 0 }

-- `at` is the address of `idt_entries`, of 256 gates of 8 bytes.
unfoldable pub idt_init : ℕ → Interrupts → Interrupts × List Effect
idt_init at s =
    let t = record s { limit = 256 * 8 - 1; base = at } in
    (clear_handlers 16 (clear_entries 256 t), pic_remap ++ (load_idt ∷ []))

unfoldable pub idt_register_handler : ℕ → ℕ → Interrupts → Interrupts
idt_register_handler irq handler s =
    if ltb irq (2 ^ 31) && ltb irq 16
    then record s { irq_handlers = update s.irq_handlers irq handler }
    else s

-- `isr_handler` for a frame with this interrupt number and `eax`
unfoldable pub isr_handler : ℕ → ℕ → List Effect
isr_handler int_no eax =
    if ltb int_no 32 then halt ∷ [] else (if int_no == 0x80 then syscall int_no eax ∷ [] else [])

-- The word of the text buffer that `irq_handler` writes, from the one that is there.
abbrev pub next_heartbeat : ℕ → ℕ
next_heartbeat word = bit_or (bit_and word 0xff00) (if bit_and word 0xff == 42 then 46 else 42)

-- `irq_handler` for a frame with this interrupt number, in text mode with `word` at the place of the
-- heartbeat, or in graphics mode
unfoldable pub irq_handler : ℕ → Bool → ℕ → Interrupts → List Effect
irq_handler int_no graphics word s =
    let irq = (int_no + 2 ^ 32 - 32) % 2 ^ 32 in
    let handler = s.irq_handlers irq in
    let calls = ltb irq (2 ^ 31) && ltb irq 16 && (if handler == 0 then false else true) in
    (if graphics then [] else heartbeat (next_heartbeat word) ∷ [])
    ++ pic_send_eoi (irq % 2 ^ 8)
    ++ (if calls then call handler ∷ [] else [])

-- The calls of `isr_install_all`: the gate, the address of its stub, its flags.
abbrev pub installs : (ℕ → ℕ) → (ℕ → ℕ) → List (ℕ × ℕ × ℕ)
installs isr irq =
    (0, isr 0, 0x8e)
    ∷ (1, isr 1, 0x8e)
    ∷ (2, isr 2, 0x8e)
    ∷ (3, isr 3, 0x8e)
    ∷ (4, isr 4, 0x8e)
    ∷ (5, isr 5, 0x8e)
    ∷ (6, isr 6, 0x8e)
    ∷ (7, isr 7, 0x8e)
    ∷ (8, isr 8, 0x8e)
    ∷ (9, isr 9, 0x8e)
    ∷ (10, isr 10, 0x8e)
    ∷ (11, isr 11, 0x8e)
    ∷ (12, isr 12, 0x8e)
    ∷ (13, isr 13, 0x8e)
    ∷ (14, isr 14, 0x8e)
    ∷ (15, isr 15, 0x8e)
    ∷ (16, isr 16, 0x8e)
    ∷ (17, isr 17, 0x8e)
    ∷ (18, isr 18, 0x8e)
    ∷ (19, isr 19, 0x8e)
    ∷ (20, isr 20, 0x8e)
    ∷ (21, isr 21, 0x8e)
    ∷ (22, isr 22, 0x8e)
    ∷ (23, isr 23, 0x8e)
    ∷ (24, isr 24, 0x8e)
    ∷ (25, isr 25, 0x8e)
    ∷ (26, isr 26, 0x8e)
    ∷ (27, isr 27, 0x8e)
    ∷ (28, isr 28, 0x8e)
    ∷ (29, isr 29, 0x8e)
    ∷ (30, isr 30, 0x8e)
    ∷ (31, isr 31, 0x8e)
    ∷ (0x20, irq 0, 0x8e)
    ∷ (0x21, irq 1, 0x8e)
    ∷ (0x22, irq 2, 0x8e)
    ∷ (0x23, irq 3, 0x8e)
    ∷ (0x24, irq 4, 0x8e)
    ∷ (0x25, irq 5, 0x8e)
    ∷ (0x26, irq 6, 0x8e)
    ∷ (0x27, irq 7, 0x8e)
    ∷ (0x28, irq 8, 0x8e)
    ∷ (0x29, irq 9, 0x8e)
    ∷ (0x2a, irq 10, 0x8e)
    ∷ (0x2b, irq 11, 0x8e)
    ∷ (0x2c, irq 12, 0x8e)
    ∷ (0x2d, irq 13, 0x8e)
    ∷ (0x2e, irq 14, 0x8e)
    ∷ (0x2f, irq 15, 0x8e)
    ∷ (0x80, isr 128, 0xee)
    ∷ []

abbrev pub install : List (ℕ × ℕ × ℕ) → Interrupts → Interrupts
install [] s = s
install ((num, base, flags) ∷ rest) s = install rest (idt_set_entry_raw num base 0x08 flags s)

unfoldable pub isr_install_all : (ℕ → ℕ) → (ℕ → ℕ) → Interrupts → Interrupts
isr_install_all isr irq s = install (installs isr irq) s
