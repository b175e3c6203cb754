-- ===== src/Keyboard/Startup/Ready.antt =====
-- What `keyboard_init` of src/kernel/keyboard.c leaves behind.
use openkernel.Base.{◌<◌, ◌≢◌, ◌++◌, map, ℕ, ◌≡◌, List, [], ◌∷◌, ◌==◌, if◌then◌else◌}
use openkernel.Base.Bits.{bit}
use openkernel.Interrupts.{Interrupts}
use openkernel.Keyboard.{Keyboard}
use openkernel.Keyboard.Ring.{pending, IsRing}
use openkernel.Keyboard.Startup.{updated_ccb}

-- The command byte that is written for the one that was read.
pub record Configured (old ccb : ℕ) : Type 0 where
  pub interrupt : bit 0 ccb ≡ 1
  pub translation : bit 6 ccb ≡ 1
  pub second_port : bit 1 ccb ≡ 0
  pub others : (k : ℕ) → k < 8 → k ≢ 0 → k ≢ 1 → k ≢ 6 → bit k ccb ≡ bit k old

-- A byte that is written to a port, or one that is read from the data port 0x60. Reads of the status
-- are not listed.
pub data Transfer : Type 0 where
  sent : ℕ → ℕ → Transfer
  received : ℕ → Transfer

module _ {S : Type 0} (inb : ℕ → S → ℕ × S) (outb : ℕ → ℕ → S → S) where
  -- The same ports, with a list of what went over them beside the controller.
  abbrev pub traced_inb : ℕ → S × List Transfer → ℕ × (S × List Transfer)
  traced_inb port (s, l) =
      let r = inb port s in (r.0, (r.1, if port == 0x60 then l ++ received r.0 ∷ [] else l))

  abbrev pub traced_outb : ℕ → ℕ → S × List Transfer → S × List Transfer
  traced_outb port value (s, l) = (outb port value s, l ++ sent port value ∷ [])

  -- The transfers of steps 1 to 3 for the byte `old` that is read.
  abbrev pub setting : ℕ → List Transfer
  setting old =
      sent 0x64 0xAE
      ∷ sent 0x64 0x20
      ∷ received old
      ∷ sent 0x64 0x60
      ∷ sent 0x60 (updated_ccb old)
      ∷ []

  -- What `keyboard_init` does: the transfers, and the driver after it.
  pub record Started (handler : ℕ) (log : List Transfer)
      (result : (S × List Transfer) × (Interrupts × Keyboard)) : Type 0 where
    pub before : List ℕ
    pub after : List ℕ
    pub old : ℕ
    pub ccb : ℕ
    pub transfers :
        result.0.1
        ≡ log
          ++ (map received before
              ++ (sent 0x64 0xAE
                  ∷ sent 0x64 0x20
                  ∷ received old
                  ∷ sent 0x64 0x60
                  ∷ sent 0x60 ccb
                  ∷ sent 0x60 0xF4
                  ∷ map received after))
    pub configured : Configured old ccb
    pub registered : result.1.0.irq_handlers 1 ≡ handler
    pub ring : IsRing result.1.1
    pub empty : pending result.1.1 ≡ []
    pub released : result.1.1.modifiers ≡ 0
