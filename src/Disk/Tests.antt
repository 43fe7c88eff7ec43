-- ===== src/Disk/Tests.antt =====
-- The checks of the transfers, the words that are written and the set-up.
use palley_os.Prelude.{
  ◌+◌, ◌%◌, ◌^◌, true, false, none, some, [], ◌∷◌, if◌then◌else◌, ◌==◌, ◌≡◌, ◌↔◌, refl, arith,
}
use palley_os.Prelude.Memory.{Mem}
use palley_os.Ports.{Ports, latches}
use palley_os.Timer.{Timer}
use palley_os.Disk.{AtaDrive, ata, primary, secondary, Message, refusal, ata_write, ata_read}
use palley_os.Disk.Range.{OnDrive, transfers-refused, transfers-alias}
use palley_os.Disk.Setup.{ide_init, ide_init-SetUp, SetUp}

abbrev disk : AtaDrive
disk = record {
  ata_type = ata;
  type = primary;
  io_port = 0x1F0;
  command_port = 0x3F6;
  uses_packets = false;
  num_sectors = 2 ^ 20;
}

abbrev other_disk : AtaDrive
other_disk = record disk { num_sectors = 77 }

abbrev machine : {D : Type 0} → D → Timer D
machine d = record {
  pit_initialized = true;
  frequency = 1000;
  pit_counters = [];
  sleep_counter = 0;
  interrupts = true;
  idt_entries = [];
  devices = d;
}

abbrev start : Timer latches.State
start = machine (λ port. 0)

abbrev buffer_bytes : Mem
buffer_bytes p = p % 100

-- A range over the drive's end.
transfers-refused_example :
    ((refusal disk 2 (2 ^ 20) ≡ none) ↔ (disk.ata_type ≡ ata) × OnDrive disk 2 (2 ^ 20))
    × ((message : Message)
        → refusal disk 2 (2 ^ 20) ≡ some message
        → (ata_write latches 0 3 5 disk buffer_bytes 1000 2 (2 ^ 20) start
            ≡ some ((message ∷ [], 0), start))
          × (ata_read latches 0 3 5 disk buffer_bytes 1000 2 (2 ^ 20) start
              ≡ some (((message ∷ [], 0), buffer_bytes), start)))
transfers-refused_example =
    transfers-refused latches 0 3 5 disk buffer_bytes 1000 2 (2 ^ 20) start (omega arith)
      (omega arith) (omega arith)

transfers-alias_example :
    (ata_write latches 0 3 5 disk buffer_bytes 1000 2 (7 + 2 ^ 19) start
      ≡ ata_write latches 0 3 5 disk buffer_bytes 1000 2 7 start)
    × (ata_read latches 0 3 5 disk buffer_bytes 1000 2 (7 + 2 ^ 19) start
        ≡ ata_read latches 0 3 5 disk buffer_bytes 1000 2 7 start)
transfers-alias_example =
    transfers-alias latches 0 3 5 disk buffer_bytes 1000 2 7 start refl (omega arith) (omega arith)

-- Two drives that answer the identification, with 327685 sectors each.
abbrev answering : Ports
answering = record {
  State = Unit {0};
  inb = λ port s. (if port == 0x3F6 then 0x08 else 0x50, s);
  outb = λ port value s. s;
  inw = λ port s. (5, s);
  outw = λ port value s. s;
}

ide_init-SetUp_example :
    SetUp
      (disk, other_disk)
      (
        true,
        (
          record disk { ata_type = ata; type = primary; io_port = 0x1F0; command_port = 0x3f6 },
          record other_disk {
            ata_type = ata;
            type = secondary;
            io_port = 0x170;
            command_port = 0x3f6;
          },
        ),
      )
unfolding ide_init
ide_init-SetUp_example =
    ide_init-SetUp answering 1 (disk, other_disk) (disk, disk) (machine tt) (machine tt) _ refl
