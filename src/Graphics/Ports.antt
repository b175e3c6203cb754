-- ===== src/Graphics/Ports.antt =====
-- What src/kernel/display.c and src/kernel/vbe.c need of the machine: ports and bytes of memory, on
-- a state that a read may change too. The machine is a parameter.
use openkernel.Base.{ℕ}

pub record Machine (S : Type 0) : Type 0 where
  pub outb : ℕ → ℕ → S → S
  pub inb : ℕ → S → ℕ × S
  pub outw : ℕ → ℕ → S → S
  pub inw : ℕ → S → ℕ × S
  pub outl : ℕ → ℕ → S → S
  pub inl : ℕ → S → ℕ × S
  pub poke : ℕ → ℕ → S → S
  pub peek : ℕ → S → ℕ × S
  pub poke32 : ℕ → ℕ → S → S
  pub peek32 : ℕ → S → ℕ × S
