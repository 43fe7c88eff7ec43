-- ===== src/Pic/Tests.antt =====
-- Two controllers, by the choices of their command ports.
use palley_os.Prelude.{ℕ, ◌%◌, ◌≡◌, refl, true, arith, ◌==◌, if◌then◌else◌}
use palley_os.Ports.{Ports}
use palley_os.Ports.Io.{Cpu}
use palley_os.Pic.{pic1_cmd, pic_get_irr, pic_get_isr}
use palley_os.Pic.Registers.{Chip, first, second, port_of, Controllers, pic_get_registers}

record Choices : Type 0 where
  of_first : ℕ
  of_second : ℕ

-- The registers, which do not change here.
abbrev held : Chip → ℕ → ℕ
held first w = if w == 0x0A then 0x81 else 0x01
held second w = if w == 0x0A then 0x40 else 0x00

abbrev pair : Ports
pair = record {
  State = Choices;
  inb = λ port s.
      if port == pic1_cmd
      then (held first s.of_first % 256, s)
      else (held second s.of_second % 256, s);
  outb = λ port value s.
      if port == pic1_cmd then record s { of_first = value } else record s { of_second = value };
  inw = λ port s. (0, s);
  outw = λ port value s. s;
}

abbrev choice : Chip → Choices → ℕ
choice first d = d.of_first
choice second d = d.of_second

chooses_lem : (c : Chip) (w : ℕ) (d : Choices) → choice c (pair.outb (port_of c) w d) ≡ w
chooses_lem first w d = refl
chooses_lem second w d = refl

reads_lem : (c : Chip) (d : Choices) → (pair.inb (port_of c) d).0 ≡ held c (choice c d) % 256
reads_lem first d = refl
reads_lem second d = refl

read_kept_lem : (c b : Chip) (d : Choices) → choice b (pair.inb (port_of c) d).1 ≡ choice b d
read_kept_lem first b d = refl
read_kept_lem second b d = refl

abbrev controllers : Controllers pair
controllers = record {
  register = λ c w d. held c w % 256;
  chosen = choice;
  is_byte = λ c w d. omega arith;
  chooses = λ c w d h. chooses_lem c w d;
  other_kept = λ w d. refl;
  kept = λ c b w x d h. refl;
  reads = reads_lem;
  read_kept = λ c b x d. (refl, read_kept_lem c b d);
}

abbrev start : Cpu Choices
start = record { interrupts = true; devices = record { of_first = 0; of_second = 0 } }

pic_get_registers_example :
    ((pic_get_irr pair true start).0 ≡ 0x4081) × ((pic_get_isr pair true start).0 ≡ 0x0001)
pic_get_registers_example = pic_get_registers pair controllers true start
