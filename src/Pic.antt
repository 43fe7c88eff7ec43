-- ===== src/Pic.antt =====
-- src/pic.c: the registers of the two interrupt controllers. The order of the two reads is not fixed
-- by C, and is a parameter.
pub mod Registers
mod Tests
use Prim.Native.Nat.{bit_or}
use palley_os.Prelude.{ℕ, ◌+◌, ◌*◌, ◌%◌, ◌^◌, Bool, if◌then◌else◌}
use palley_os.Ports.{Ports}
use palley_os.Ports.Io.{Io, return, ◌>>=◌, ◌>>◌, outb, inb}

abbrev pub pic1_cmd : ℕ
pic1_cmd = 0x20

abbrev pub pic2_cmd : ℕ
pic2_cmd = 0xA0

abbrev pub pic_read_irr : ℕ
pic_read_irr = 0x0A

abbrev pub pic_read_isr : ℕ
pic_read_isr = 0x0B

module _ (v : Ports) (second_first : Bool) where
  -- `(inb(PIC2_CMD) << 8) | inb(PIC1_CMD)`, as a uint16_t.
  abbrev pub read_both : Io v.State ℕ
  read_both =
      if second_first
      then (do
        second ← inb v pic2_cmd
        first ← inb v pic1_cmd
        return (bit_or (second * 2 ^ 8) first % 2 ^ 16))
      else do
        first ← inb v pic1_cmd
        second ← inb v pic2_cmd
        return (bit_or (second * 2 ^ 8) first % 2 ^ 16)

  unfoldable pub pic_get_irq_reg : ℕ → Io v.State ℕ
  pic_get_irq_reg ocw3 = do outb v pic1_cmd ocw3; outb v pic2_cmd ocw3; read_both

  unfoldable pub pic_get_irr : Io v.State ℕ
  unfolding pic_get_irq_reg
  pic_get_irr = pic_get_irq_reg pic_read_irr

  unfoldable pub pic_get_isr : Io v.State ℕ
  unfolding pic_get_irq_reg
  pic_get_isr = pic_get_irq_reg pic_read_isr
