-- ===== src/Serial/Uart.antt =====
-- src/serial.c: serialInit, on a UART as the documents of the 16550 describe it. The device is not
-- in the repository.
use palley_os.Prelude.{ℕ, ◌+◌, ◌*◌, ◌/◌, ◌%◌, ◌^◌, ◌<◌, Bool, ◌==◌, if◌then◌else◌, ◌≡◌, arith}
use palley_os.Ports.{Ports}
use palley_os.Ports.Io.{Cpu}
use palley_os.Serial.{com1, serial_init}

pub record Registers : Type 0 where
  pub interrupt_enable : ℕ
  pub line_control : ℕ
  pub divisor : ℕ

-- The highest bit of the line control sends the first two registers to the divisor.
abbrev pub divisor_access : Registers → Bool
divisor_access r = r.line_control / 2 ^ 7 % 2 == 1

-- What a byte for the first, the second and the fourth register does. Sent data is not a register.
abbrev pub write_data : ℕ → Registers → Registers
write_data value r =
    if divisor_access r then record r { divisor = r.divisor / 256 * 256 + value } else r

abbrev pub write_interrupt_enable : ℕ → Registers → Registers
write_interrupt_enable value r =
    if divisor_access r
    then record r { divisor = r.divisor % 256 + value * 256 }
    else record r { interrupt_enable = value }

pub record Uart (v : Ports) : Type 0 where
  pub registers : v.State → Registers
  pub data_written :
      (d : v.State) (value : ℕ)
      → value < 256
      → registers (v.outb com1 value d) ≡ write_data value (registers d)
  pub interrupt_enable_written :
      (d : v.State) (value : ℕ)
      → value < 256
      → registers (v.outb (com1 + 1) value d) ≡ write_interrupt_enable value (registers d)
  pub line_control_written :
      (d : v.State) (value : ℕ)
      → value < 256
      → registers (v.outb (com1 + 3) value d) ≡ record (registers d) { line_control = value }

module _ (v : Ports) (u : Uart v) where
  -- serialInit leaves the divisor 16, eight data bits, one stop bit, no parity and the data register
  -- in reach; it turns the interrupts off where the divisor was out of reach, and otherwise leaves
  -- them as they were.
  pub serial_init-Registers :
      (s : Cpu v.State)
      → u.registers (serial_init v s).1.devices ≡ record {
        interrupt_enable =
            if divisor_access (u.registers s.devices)
            then (u.registers s.devices).interrupt_enable
            else 0;
        line_control = 3;
        divisor = 16;
      }
  unfolding serial_init
  serial_init-Registers s =
      let d1 = v.outb (com1 + 1) 0 s.devices in
      let d2 = v.outb (com1 + 3) 0x83 d1 in
      let d3 = v.outb com1 0x10 d2 in
      let d4 = v.outb (com1 + 1) 0 d3 in
      ground (
        arith,
        u.interrupt_enable_written s.devices 0 (omega arith),
        u.line_control_written d1 0x83 (omega arith),
        u.data_written d2 0x10 (omega arith),
        u.interrupt_enable_written d3 0 (omega arith),
        u.line_control_written d4 3 (omega arith),
      )
