-- ===== src/Serial.antt =====
-- src/serial.c: the serial port. A structure of bit fields is the byte that it is read as, with its
-- first field in the lowest bits. The wait for a byte runs on fuel, and `none` is a wait that does
-- not end.
pub mod Uart
pub mod Reception
mod Tests
use palley_os.Prelude.{
  ℕ, zero, suc, ◌+◌, ◌*◌, ◌%◌, ◌^◌, Bool, true, false, Option, none, some, ◌==◌, if◌then◌else◌,
}
use palley_os.Prelude.Memory.{Mem, store}
use palley_os.Ports.{Ports}
use palley_os.Ports.Io.{Io, return, ◌>>=◌, ◌>>◌, outb, inb}

abbrev pub com1 : ℕ
com1 = 0x3F8

abbrev pub com_data : ℕ
com_data = 0

abbrev pub com_interrupt_enable : ℕ
com_interrupt_enable = 1

abbrev pub com_baud_divisor_lsb : ℕ
com_baud_divisor_lsb = 0

abbrev pub com_baud_divisor_msb : ℕ
com_baud_divisor_msb = 1

abbrev pub com_line_control : ℕ
com_line_control = 3

abbrev pub com_line_status : ℕ
com_line_status = 5

pub record LineControl : Type 0 where
  pub data_bits : ℕ
  pub stop_bits : ℕ
  pub parity : ℕ
  pub reserved : ℕ
  pub dlab : ℕ

-- `*((uint8_t*) &line_control)`
abbrev pub line_control_byte : LineControl → ℕ
line_control_byte l =
    l.data_bits % 2 ^ 2
    + l.stop_bits % 2 * 2 ^ 2
    + l.parity % 2 ^ 3 * 2 ^ 3
    + l.reserved % 2 * 2 ^ 6
    + l.dlab % 2 * 2 ^ 7

pub record InterruptEnable : Type 0 where
  pub data_available : ℕ
  pub transmitter_empty : ℕ
  pub break_error : ℕ
  pub status_change : ℕ
  pub reserved : ℕ

abbrev pub interrupt_enable_byte : InterruptEnable → ℕ
interrupt_enable_byte e =
    e.data_available % 2
    + e.transmitter_empty % 2 * 2
    + e.break_error % 2 * 2 ^ 2
    + e.status_change % 2 * 2 ^ 3
    + e.reserved % 2 ^ 4 * 2 ^ 4

-- What kmemset leaves of the structure.
abbrev pub no_interrupts : InterruptEnable
no_interrupts = record {
  data_available = 0;
  transmitter_empty = 0;
  break_error = 0;
  status_change = 0;
  reserved = 0;
}

abbrev pub line_options : LineControl
line_options = record { data_bits = 3; stop_bits = 0; parity = 0; reserved = 0; dlab = 1 }

module _ (v : Ports) where
  abbrev pub set_register : ℕ → ℕ → ℕ → Io v.State (Unit {0})
  set_register port reg byte = outb v (port + reg) byte

  abbrev pub read_register : ℕ → ℕ → Io v.State ℕ
  read_register port reg = inb v (port + reg)

  unfoldable pub serial_init : Io v.State (Unit {0})
  serial_init = do
    set_register com1 com_interrupt_enable (interrupt_enable_byte no_interrupts)
    set_register com1 com_line_control (line_control_byte line_options)
    set_register com1 com_baud_divisor_lsb 0x10
    set_register com1 com_baud_divisor_msb 0x00
    set_register com1 com_line_control (line_control_byte (record line_options { dlab = 0 }))

  -- The endless loop on the status; false is fuel that has run out.
  unfoldable pub wait_ready : ℕ → Io v.State Bool
  wait_ready zero s = (false, s)
  wait_ready (suc fuel) s =
      let (status, s') = read_register com1 com_line_status s in
      let rest = wait_ready fuel s' in if status % 2 == 1 then (true, s') else rest

  -- The loop over the `left` bytes that are still to come.
  unfoldable pub serial_read : ℕ → ℕ → ℕ → Mem → Io v.State (Option Mem)
  serial_read fuel buffer zero m = return (some m)
  serial_read fuel buffer (suc left) m = do
    ready ← wait_ready fuel
    if ready
        then (do
          byte ← read_register com1 com_data
          serial_read fuel (buffer + 1) left (store m buffer byte))
        else return none
