-- ===== src/Ports/Io.antt =====
-- include/io.h: the port instructions and the interrupt flag as actions in a sequence, for the code
-- that only talks to devices. ioWait touches nothing.
use palley_os.Prelude.{ℕ, Bool, true, false}
use palley_os.Ports.{Ports}

-- The interrupt flag of the processor, and the devices.
pub record Cpu (D : Type 0) : Type 0 where
  pub interrupts : Bool
  pub devices : D

abbrev pub Io : Type 0 → Type 0 → Type 0
Io D A = Cpu D → A × Cpu D

abbrev pub return : {D A : Type 0} → A → Io D A
return a s = (a, s)

infixl 5 ◌>>=◌ ◌>>◌
abbrev pub ◌>>=◌ : {D A B : Type 0} → Io D A → (A → Io D B) → Io D B
◌>>=◌ m f s = f (m s).0 (m s).1

abbrev pub ◌>>◌ : {D A B : Type 0} → Io D A → Io D B → Io D B
m >> k = m >>= (λ a. k)

abbrev pub cli : {D : Type 0} → Io D (Unit {0})
cli s = (tt, record s { interrupts = false })

abbrev pub sti : {D : Type 0} → Io D (Unit {0})
sti s = (tt, record s { interrupts = true })

module _ (v : Ports) where
  abbrev pub outb : ℕ → ℕ → Io v.State (Unit {0})
  outb port value s = (tt, record s { devices = v.outb port value s.devices })

  abbrev pub inb : ℕ → Io v.State ℕ
  inb port s = let (value, d) = v.inb port s.devices in (value, record s { devices = d })
