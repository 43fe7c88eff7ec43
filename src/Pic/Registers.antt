-- ===== src/Pic/Registers.antt =====
-- src/pic.c: what the two reads give, on controllers as the documents of the 8259 describe them. The
-- devices are not in the repository.
use Prim.Native.Nat.{bit_or}
use palley_os.Prelude.{
  ℕ, ◌+◌, ◌*◌, ◌%◌, ◌^◌, ◌<◌, Bool, true, false, ◌≡◌, refl, ◌∙◌, ◌⊎◌, inl, inr, arith,
}
use palley_os.Prelude.Bits.{bit_or-bytes}
use palley_os.Ports.{Ports}
use palley_os.Ports.Io.{Cpu}
use palley_os.Pic.{
  pic1_cmd, pic2_cmd, pic_read_irr, pic_read_isr, pic_get_irq_reg, pic_get_irr, pic_get_isr,
}

pub data Chip : Type 0 where
  first second : Chip

abbrev pub port_of : Chip → ℕ
port_of first = pic1_cmd
port_of second = pic2_cmd

-- Each controller has a request and a service register, numbered by the word that chooses it for
-- the reads of its command port; a choice or a read changes neither, nor the other's choice.
pub record Controllers (v : Ports) : Type 0 where
  pub register : Chip → ℕ → v.State → ℕ
  pub chosen : Chip → v.State → ℕ
  pub is_byte : (c : Chip) (w : ℕ) (d : v.State) → register c w d < 256
  pub chooses :
      (c : Chip) (w : ℕ) (d : v.State)
      → (w ≡ pic_read_irr) ⊎ (w ≡ pic_read_isr)
      → chosen c (v.outb (port_of c) w d) ≡ w
  pub other_kept : (w : ℕ) (d : v.State) → chosen first (v.outb pic2_cmd w d) ≡ chosen first d
  pub kept :
      (c b : Chip) (w x : ℕ) (d : v.State)
      → (w ≡ pic_read_irr) ⊎ (w ≡ pic_read_isr)
      → register b x (v.outb (port_of c) w d) ≡ register b x d
  pub reads : (c : Chip) (d : v.State) → (v.inb (port_of c) d).0 ≡ register c (chosen c d) d
  pub read_kept :
      (c b : Chip) (x : ℕ) (d : v.State)
      → (register b x (v.inb (port_of c) d).1 ≡ register b x d)
        × (chosen b (v.inb (port_of c) d).1 ≡ chosen b d)

module _ (v : Ports) (p : Controllers v) (second_first : Bool) where
  abbrev combined : ℕ → v.State → ℕ
  combined w d = p.register second w d * 256 + p.register first w d

  joined :
      (a b high low : ℕ)
      → a ≡ high
      → b ≡ low
      → high < 256
      → low < 256
      → bit_or (a * 2 ^ 8) b % 2 ^ 16 ≡ high * 256 + low
  joined a b high low ea eb hh hl = rw (ea, eb, bit_or-bytes high low hh hl) (omega arith)

  pic_get_irq_reg-combined :
      (w : ℕ) (s : Cpu v.State)
      → (w ≡ pic_read_irr) ⊎ (w ≡ pic_read_isr)
      → (pic_get_irq_reg v second_first w s).0 ≡ combined w s.devices
  unfolding pic_get_irq_reg
  pic_get_irq_reg-combined w s which = read second_first
    where
      d1 : v.State
      d1 = v.outb pic1_cmd w s.devices

      d2 : v.State
      d2 = v.outb pic2_cmd w d1

      value :
          (c : Chip) (d : v.State)
          → p.register c w d ≡ p.register c w s.devices
          → p.chosen c d ≡ w
          → (v.inb (port_of c) d).0 ≡ p.register c w s.devices
      value c d same choice = p.reads c d ∙ rw choice same

      same2 : (c : Chip) → p.register c w d2 ≡ p.register c w s.devices
      same2 c = p.kept second c w w d1 which ∙ p.kept first c w w s.devices which

      choice2 : (c : Chip) → p.chosen c d2 ≡ w
      choice2 first = p.other_kept w d1 ∙ p.chooses first w s.devices which
      choice2 second = p.chooses second w d1 which

      now : (c : Chip) → (v.inb (port_of c) d2).0 ≡ p.register c w s.devices
      now c = value c d2 (same2 c) (choice2 c)

      behind :
          (c b : Chip) → (v.inb (port_of c) (v.inb (port_of b) d2).1).0 ≡ p.register c w s.devices
      behind c b =
          value c (v.inb (port_of b) d2).1 ((p.read_kept b c w d2).0 ∙ same2 c)
            ((p.read_kept b c w d2).1 ∙ choice2 c)

      read : (order : Bool) → (pic_get_irq_reg v order w s).0 ≡ combined w s.devices
      read true =
          joined _ _ _ _ (now second) (behind first second) (p.is_byte second w _)
            (p.is_byte first w _)
      read false =
          joined _ _ _ _ (behind second first) (now first) (p.is_byte second w _)
            (p.is_byte first w _)

  -- picGetIrr and picGetIsr give the request and the service registers of both controllers, the
  -- second one's in the high byte, in either order of the reads.
  pub pic_get_registers :
      (s : Cpu v.State)
      → ((pic_get_irr v second_first s).0 ≡ combined pic_read_irr s.devices)
        × ((pic_get_isr v second_first s).0 ≡ combined pic_read_isr s.devices)
  unfolding pic_get_irr pic_get_isr
  pic_get_registers s = (
    pic_get_irq_reg-combined pic_read_irr s (inl refl),
    pic_get_irq_reg-combined pic_read_isr s (inr refl),
  )
