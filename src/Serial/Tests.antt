-- ===== src/Serial/Tests.antt =====
-- A UART, and a line with two bytes.
use palley_os.Prelude.{
  ℕ, suc, ◌+◌, ◌≤◌, ◌<◌, ◌≡◌, refl, ◌⊎◌, List, [], ◌∷◌, zero, true, some, arith, ◌==◌,
  if◌then◌else◌, get_or,
}
use palley_os.Prelude.Memory.{Mem}
use palley_os.Ports.{Ports}
use palley_os.Ports.Io.{Cpu}
use palley_os.Serial.{serial_init, serial_read}
use palley_os.Serial.Uart.{
  Registers, Uart, write_data, write_interrupt_enable, serial_init-Registers,
}
use palley_os.Serial.Reception.{Arrival, Line, serial_read-Received}

abbrev chip : Ports
chip = record {
  State = Registers;
  inb = λ port s. (0, s);
  outb = λ port value s.
      if port == 0x3F8
      then write_data value s
      else if port == 0x3F9
      then write_interrupt_enable value s
      else if port == 0x3FB
      then record s { line_control = value }
      else s;
  inw = λ port s. (0, s);
  outw = λ port value s. s;
}

abbrev uart : Uart chip
uart = record {
  registers = λ d. d;
  data_written = λ d value h. refl;
  interrupt_enable_written = λ d value h. refl;
  line_control_written = λ d value h. refl;
}

abbrev reset : Cpu Registers
reset = record {
  interrupts = true;
  devices = record { interrupt_enable = 15; line_control = 0; divisor = 1 };
}

serial_init-Registers_example :
    (serial_init chip reset).1.devices
    ≡ record { interrupt_enable = 0; line_control = 3; divisor = 16 }
serial_init-Registers_example = serial_init-Registers chip uart reset

-- The status counts down the waits of the first byte.
abbrev status_of : List Arrival → ℕ × List Arrival
status_of [] = (0, [])
status_of (a ∷ rest) = elim a.waits [
  | zero ↦ (1, a ∷ rest)
  | suc n ↦ (0, record { waits = n; byte = a.byte } ∷ rest)
]

abbrev data_of : List Arrival → ℕ × List Arrival
data_of [] = (0, [])
data_of (a ∷ rest) = (a.byte, rest)

abbrev wire : Ports
wire = record {
  State = List Arrival;
  inb = λ port s. if port == 0x3F8 then data_of s else status_of s;
  outb = λ port value s. s;
  inw = λ port s. (0, s);
  outw = λ port value s. s;
}

abbrev line : Line wire
line = record {
  arrivals = λ d. d;
  waiting = λ d n b rest e. rw e (refl, refl);
  ready = λ d b rest e. rw e (refl, refl);
  gives = λ d b rest e. rw e (refl, refl);
}

abbrev asked : List Arrival
asked = record { waits = 2; byte = 104 } ∷ record { waits = 0; byte = 105 } ∷ []

abbrev listening : Cpu (List Arrival)
listening = record { interrupts = true; devices = asked }

serial_read-Received_example :
    (after : Mem) × (s : Cpu (List Arrival)) × (serial_read wire 3 100 2 (λ a. 0) listening
      ≡ (some after, s))
    × ((i : ℕ) → i < 2 → after (100 + i) ≡ get_or (104 ∷ 105 ∷ []) i 0)
    × ((a : ℕ) → (a < 100) ⊎ (100 + 2 ≤ a) → after a ≡ 0)
    × (s.devices ≡ [])
serial_read-Received_example =
    serial_read-Received wire line 3 100 asked [] (λ a. 0) listening refl
      (omega arith, (omega arith, tt))
