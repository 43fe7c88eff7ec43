-- ===== src/Ports.antt =====
-- include/io.h: the CPU's port instructions, which stand for devices outside the repository and are
-- a parameter: the 8-bit and the 16-bit reads and writes, which the modelled code makes.
pub mod Io
use palley_os.Prelude.{ℕ, ◌==◌, if◌then◌else◌}

-- A read may change a device.
pub record Ports : Type 1 where
  pub State : Type 0
  pub inb : ℕ → State → ℕ × State
  pub outb : ℕ → ℕ → State → State
  pub inw : ℕ → State → ℕ × State
  pub outw : ℕ → ℕ → State → State

-- Devices that are latches: a port reads back what was written to it last.
abbrev pub latches : Ports
latches = record {
  State = ℕ → ℕ;
  inb = λ port s. (s port, s);
  outb = λ port value s q. if q == port then value else s q;
  inw = λ port s. (s port, s);
  outw = λ port value s q. if q == port then value else s q;
}
