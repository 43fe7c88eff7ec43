-- ===== src/Disk.antt =====
-- src/ata.c, and src/ide.c, a copy of it: the ATA driver by port input and output. A call runs
-- over the timer, whose interrupts end its waits of a millisecond, and over the devices. A loop that
-- waits for the status runs on fuel, and `none` is a wait that does not end. The messages of a
-- transfer are the constructors that name them, with the number that is printed; those of the set-up
-- are dropped.
pub mod Setup
pub mod Range
mod Tests
use Prim.Native.Nat.{bit_or}
use palley_os.Prelude.{
  ℕ, zero, suc, ◌+◌, ◌*◌, ◌/◌, ◌%◌, ◌^◌, Bool, true, false, not, ◌&&◌, ◌||◌, Option, none, some,
  List, [], ◌∷◌, ◌==◌, ltb, if◌then◌else◌, u32_mod,
}
use palley_os.Prelude.Memory.{Mem, store}
use palley_os.Ports.{Ports}
use palley_os.Timer.{Timer, pit_sleep}

abbrev pub sector_size : ℕ
sector_size = 512

pub data AtaType : Type 0 where
  ata atapi : AtaType

pub data AtaDriveType : Type 0 where
  primary secondary : AtaDriveType

pub record AtaDrive : Type 0 where
  pub ata_type : AtaType
  pub type : AtaDriveType
  pub io_port : ℕ
  pub command_port : ℕ
  pub uses_packets : Bool
  pub num_sectors : ℕ

abbrev pub is_atapi : AtaType → Bool
is_atapi ata = false
is_atapi atapi = true

-- The bits of a status register that are waited for.
abbrev pub status_bit : ℕ → ℕ → Bool
status_bit bit status = status / 2 ^ bit % 2 == 1

abbrev pub error_set : ℕ → Bool
error_set status = status_bit 0 status

abbrev pub data_transfer_requested : ℕ → Bool
data_transfer_requested status = status_bit 3 status

abbrev pub busy : ℕ → Bool
busy status = status_bit 7 status

-- A call: none where it does not return.
abbrev pub Call : Type 0 → Type 0 → Type 0
Call D A = Timer D → Option (A × Timer D)

abbrev pub return : {D A : Type 0} → A → Call D A
return a s = some (a, s)

infixl 5 ◌>>=◌ ◌>>◌
abbrev pub ◌>>=◌ : {D A B : Type 0} → Call D A → (A → Call D B) → Call D B
◌>>=◌ m f s = elim (m s) [ none ↦ none | some (a, s') ↦ f a s' ]

abbrev pub ◌>>◌ : {D A B : Type 0} → Call D A → Call D B → Call D B
m >> k = m >>= (λ a. k)

-- What a transfer prints; the two of the range print the number of the drive's sectors as well.
pub data Message : Type 0 where
  not_implemented transfer_error : Message
  sector_too_high off_end : ℕ → Message

-- The message of the first check that fails. The sum wraps around.
abbrev pub refusal : AtaDrive → ℕ → ℕ → Option Message
refusal drive num_sectors sector_num =
    if is_atapi drive.ata_type
    then some not_implemented
    else if ltb drive.num_sectors sector_num
    then some (sector_too_high drive.num_sectors)
    else if ltb drive.num_sectors ((sector_num + num_sectors) % u32_mod)
    then some (off_end drive.num_sectors)
    else none

abbrev pub lba_of : ℕ → ℕ
lba_of sector_num = sector_num * sector_size % u32_mod % 2 ^ 28

abbrev pub select_base : AtaDriveType → ℕ
select_base primary = 0xE0
select_base secondary = 0xF0

-- What a transfer prints and returns, by the last status.
abbrev pub transferred : ℕ → ℕ → List Message × ℕ
transferred num_sectors status =
    if error_set status then (transfer_error ∷ [], 0) else ([], num_sectors * sector_size % u32_mod)

-- The word that is written for the two bytes at `buffer`: the first is a char and keeps its sign. The
-- second operand is cut to the 16 bits that the assignment keeps.
abbrev pub to_write : Mem → ℕ → ℕ
to_write m buffer =
    bit_or (if ltb (m buffer) 128 then m buffer else m buffer + 0xFF00)
      ((m (buffer + 1) + m (buffer + 2) * 2 ^ 8) * 2 ^ 8 % 2 ^ 16)

module _ (v : Ports) where
  abbrev pub out : ℕ → ℕ → Call v.State (Unit {0})
  out port value s = some (tt, record s { devices = v.outb port value s.devices })

  abbrev pub out_word : ℕ → ℕ → Call v.State (Unit {0})
  out_word port value s = some (tt, record s { devices = v.outw port value s.devices })

  abbrev pub input : ℕ → Call v.State ℕ
  input port s = let (value, d) = v.inb port s.devices in some (value, record s { devices = d })

  abbrev pub input_word : ℕ → Call v.State ℕ
  input_word port s =
      let (value, d) = v.inw port s.devices in some (value, record s { devices = d })

  -- Reads of a status until it is ready; the last one is given.
  unfoldable pub poll : ℕ → (ℕ → Bool) → ℕ → Call v.State ℕ
  poll zero is_ready port s = none
  poll (suc fuel) is_ready port s =
      let (status, d) = v.inb port s.devices in
      let rest = poll fuel is_ready port (record s { devices = d }) in
      if is_ready status then some (status, record s { devices = d }) else rest

  abbrev pub reset_bus : AtaDrive → Call v.State (Unit {0})
  reset_bus drive = do out drive.command_port (2 ^ 2); out drive.command_port (2 ^ 1)

  abbrev pub ata_set_no_interrupts : AtaDrive → Call v.State (Unit {0})
  ata_set_no_interrupts drive = out drive.command_port 0x02

  abbrev pub ide_poll : ℕ → AtaDrive → Call v.State ℕ
  ide_poll fuel drive = poll fuel (λ status. not (busy status)) drive.command_port

  -- The sector count, for the register that ATA_REG_SECCOUNT numbers 8, the low three bytes of the
  -- address and the command.
  unfoldable pub send_command : AtaDrive → ℕ → ℕ → ℕ → Call v.State (Unit {0})
  send_command drive num_sectors lba command = do
    out (drive.io_port + 8) (num_sectors % 256)
    out (drive.io_port + 3) (lba % 256)
    out (drive.io_port + 4) (lba / 2 ^ 8 % 256)
    out (drive.io_port + 5) (lba / 2 ^ 16 % 256)
    out (drive.io_port + 7) command

  unfoldable pub write_words : ℕ → AtaDrive → Mem → ℕ → Call v.State (Unit {0})
  write_words zero drive m buffer = return tt
  write_words (suc left) drive m buffer = do
    out_word drive.io_port (to_write m buffer)
    write_words left drive m (buffer + 2)

  unfoldable pub read_words : ℕ → AtaDrive → Mem → ℕ → Call v.State Mem
  read_words zero drive m buffer = return m
  read_words (suc left) drive m buffer = do
    tmp ← input_word drive.io_port
    read_words left drive (store (store m buffer (tmp % 256)) (buffer + 1) (tmp / 256 % 256))
        (buffer + 2)

  -- pitSleep(1), while `irqs` timer interrupts arrive.
  abbrev pub waste_time : ℕ → ℕ → Call v.State (Unit {0})
  waste_time handler irqs s = elim (pit_sleep v handler irqs 1 s) [
    | none ↦ none
    | some s' ↦ some (tt, s')
  ]

  module _ (handler irqs fuel : ℕ) where
    -- The drive is selected and idle, and the command is sent and answered.
    unfoldable pub begin_transfer : AtaDrive → Call v.State (Unit {0}) → ℕ → ℕ → ℕ → Call v.State ℕ
    unfolding poll send_command
    begin_transfer drive prepare num_sectors sector_num command = do
      out (drive.io_port + 6) (bit_or (select_base drive.type) (lba_of sector_num / 2 ^ 24 % 16))
      waste_time handler irqs
      prepare
      poll fuel (λ status. not (busy status) && not (data_transfer_requested status))
          drive.command_port
      send_command drive num_sectors (lba_of sector_num) command
      waste_time handler irqs
      poll fuel (λ status. not (busy status) && data_transfer_requested status) drive.command_port

    unfoldable pub ata_write : AtaDrive → Mem → ℕ → ℕ → ℕ → Call v.State (List Message × ℕ)
    unfolding begin_transfer poll
    ata_write drive m buffer num_sectors sector_num =
        let transfer = do
          begin_transfer drive (ata_set_no_interrupts drive) num_sectors sector_num 0x30
          write_words (num_sectors * (sector_size / 2) % u32_mod) drive m buffer
          out (drive.io_port + 7) 0xE7
          reset_bus drive
          status ←
              poll fuel (λ status. not (data_transfer_requested status) && not (busy status))
                drive.command_port
          return (transferred num_sectors status)
        in elim (refusal drive num_sectors sector_num) [
          | none ↦ transfer
          | some message ↦ return (message ∷ [], 0)
        ]

    unfoldable pub ata_read : AtaDrive → Mem → ℕ → ℕ → ℕ → Call v.State ((List Message × ℕ) × Mem)
    unfolding begin_transfer poll
    ata_read drive m buffer num_sectors sector_num =
        let transfer = do
          begin_transfer drive (reset_bus drive) num_sectors sector_num 0x20
          m' ← read_words (num_sectors * (sector_size / 2) % u32_mod) drive m buffer
          out (drive.io_port + 7) 0xE7
          reset_bus drive
          status ← ide_poll fuel drive
          return (transferred num_sectors status, m')
        in elim (refusal drive num_sectors sector_num) [
          | none ↦ transfer
          | some message ↦ return ((message ∷ [], 0), m)
        ]
