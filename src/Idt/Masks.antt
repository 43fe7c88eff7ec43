-- ===== src/Idt/Masks.antt =====
-- irqSetMask and irqClearMask, on controllers whose data port reads back what was written to it.
use Prim.Native.Nat.{bit_and, bit_or}
use palley_os.Prelude.{
  ℕ, ◌-◌, ◌%◌, ◌^◌, ◌<◌, ◌≡◌, refl, ap, ◌∙◌, ◌⊎◌, inl, inr, Bool, true, false, arith, ◌==◌, ltb,
  ltb→lt, ==_iff, if◌then◌else◌, Bool-cases,
}
use palley_os.Prelude.Bits.{
  holds_below, holds_below-at, is_clear, is_clear-bit_or, is_clear-bit_and, bit_or-lt,
}
use palley_os.Ports.{Ports}
use palley_os.Idt.{irq_set_mask, irq_clear_mask, data_port, line_bit, pic1_data, pic2_data}

-- The interrupt mask registers of the two controllers, as their data ports show them: a read gives
-- the register and changes neither, and a write of a byte changes the one that it names.
pub record MaskRegisters (v : Ports) : Type 0 where
  pub register : ℕ → v.State → ℕ
  pub register-lt : (port : ℕ) (s : v.State) → register port s < 256
  pub read_port : (port : ℕ) (s : v.State) → (v.inb port s).0 ≡ register port s
  pub read_keeps : (port q : ℕ) (s : v.State) → register q (v.inb port s).1 ≡ register q s
  pub write_port :
      (port value q : ℕ) (s : v.State)
      → (port ≡ pic1_data) ⊎ (port ≡ pic2_data)
      → value < 256
      → register q (v.outb port value s) ≡ (if q == port then value else register q s)

module _ (v : Ports) (r : MaskRegisters v) where
  -- Interrupts of a line reach the processor.
  abbrev pub enabled : ℕ → v.State → Bool
  enabled line s = is_clear (r.register (data_port v line) s) (line_bit v line)

  -- The register that a change of a line's bit leaves.
  line_of :
      (line k : ℕ)
      → line < 16
      → k < 16
      → (data_port v k == data_port v line) ≡ true
      → (line_bit v k == line_bit v line) ≡ (k == line)
  line_of line k hl hk = ground arith

  other_port : (line k : ℕ) → (data_port v k == data_port v line) ≡ false → (k == line) ≡ false
  other_port line k = ground arith

  line_bit-lt : (line : ℕ) → line < 16 → line_bit v line < 8
  line_bit-lt line h = ground arith

  data_port-either : (line : ℕ) → (data_port v line ≡ pic1_data) ⊎ (data_port v line ≡ pic2_data)
  data_port-either line = ground arith

  power_table : holds_below 8 (λ j. 2 ^ j % 256 == 2 ^ j) ≡ true
  unfolding holds_below
  power_table = refl

  small_power : (j : ℕ) → j < 8 → 2 ^ j % 256 ≡ 2 ^ j
  small_power j h = (==_iff _ _).0 (holds_below-at 8 (λ j. 2 ^ j % 256 == 2 ^ j) j power_table h)

  and_table : holds_below 256 (λ b. holds_below 8 (λ k. ltb (bit_and b (255 - 2 ^ k)) 256)) ≡ true
  unfolding holds_below
  and_table = refl

  bit_and-lt : (b k : ℕ) → b < 256 → k < 8 → bit_and b (255 - 2 ^ k) < 256
  bit_and-lt b k hb hk = ltb→lt _ 256 (
      holds_below-at 8 (λ k. ltb (bit_and b (255 - 2 ^ k)) 256) k
        (holds_below-at 256 (λ b. holds_below 8 (λ k. ltb (bit_and b (255 - 2 ^ k)) 256)) b
          and_table hb)
        hk)

  -- A write to the line's register shows at the lines of that register only.
  written :
      (line k value : ℕ) (b : Bool) (s s' : v.State)
      → line < 16
      → k < 16
      → ((q : ℕ) → r.register q s' ≡ r.register q s)
      → value < 256
      → ((j : ℕ)
          → j < 8
          → is_clear value j
            ≡ (if j == line_bit v line then b else is_clear (r.register (data_port v line) s) j))
      → enabled k (v.outb (data_port v line) value s') ≡ (if k == line then b else enabled k s)
  written line k value b s s' hl hk keeps lt bits =
      let after =
        r.write_port (data_port v line) value (data_port v k) s' (data_port-either line) lt in
      elim (Bool-cases (data_port v k == data_port v line)) [
        | inl e ↦
            let hit : r.register (data_port v k) (v.outb (data_port v line) value s') ≡ value =
              after ∙ rw e refl in
            ap (λ w. is_clear w (line_bit v k)) hit
            ∙ bits (line_bit v k) (line_bit-lt k hk)
            ∙ rw (line_of line k hl hk e) (rw ((==_iff _ _).0 e) refl)
        | inr e ↦
            let missed : r.register (data_port v k) (v.outb (data_port v line) value s')
                ≡ r.register (data_port v k) s =
              after ∙ rw e (keeps (data_port v k)) in
            ap (λ w. is_clear w (line_bit v k)) missed ∙ rw (other_port line k e) refl
      ]

  set_write :
      (line : ℕ) (s : v.State)
      → line < 16
      → irq_set_mask v line s
        ≡ v.outb
            (data_port v line)
            (bit_or (r.register (data_port v line) s) (2 ^ line_bit v line))
            (v.inb (data_port v line) s).1
  unfolding irq_set_mask
  set_write line s h =
      ap
        (λ b.
          v.outb (data_port v line) (bit_or b (2 ^ line_bit v line % 256))
            (v.inb (data_port v line) s).1)
        (r.read_port (data_port v line) s)
      ∙ ap
          (λ w.
            v.outb (data_port v line) (bit_or (r.register (data_port v line) s) w)
              (v.inb (data_port v line) s).1)
          (small_power (line_bit v line) (line_bit-lt line h))

  clear_write :
      (line : ℕ) (s : v.State)
      → line < 16
      → irq_clear_mask v line s
        ≡ v.outb
            (data_port v line)
            (bit_and (r.register (data_port v line) s) (255 - 2 ^ line_bit v line))
            (v.inb (data_port v line) s).1
  unfolding irq_clear_mask
  clear_write line s h =
      ap
        (λ b.
          v.outb (data_port v line) (bit_and b (255 - 2 ^ line_bit v line % 256))
            (v.inb (data_port v line) s).1)
        (r.read_port (data_port v line) s)
      ∙ ap
          (λ w.
            v.outb (data_port v line) (bit_and (r.register (data_port v line) s) (255 - w))
              (v.inb (data_port v line) s).1)
          (small_power (line_bit v line) (line_bit-lt line h))

  -- irqSetMask: it closes its line of the sixteen, and every other line is as it was.
  pub irq_set_mask_lem :
      (line k : ℕ) (s : v.State)
      → line < 16
      → k < 16
      → enabled k (irq_set_mask v line s) ≡ (if k == line then false else enabled k s)
  irq_set_mask_lem line k s hl hk =
      let p = data_port v line in
      let small = line_bit-lt line hl in
      rw (set_write line s hl) (
        written line k (bit_or (r.register p s) (2 ^ line_bit v line)) false s (v.inb p s).1 hl hk
          (λ q. r.read_keeps p q s)
          (bit_or-lt (r.register p s) (line_bit v line) (r.register-lt p s) small)
          (λ j hj.
            is_clear-bit_or (r.register p s) (line_bit v line) j (r.register-lt p s) small hj))

  -- irqClearMask: it opens its line of the sixteen, and every other line is as it was.
  pub irq_clear_mask_lem :
      (line k : ℕ) (s : v.State)
      → line < 16
      → k < 16
      → enabled k (irq_clear_mask v line s) ≡ (if k == line then true else enabled k s)
  irq_clear_mask_lem line k s hl hk =
      let p = data_port v line in
      let small = line_bit-lt line hl in
      rw (clear_write line s hl) (
        written line k (bit_and (r.register p s) (255 - 2 ^ line_bit v line)) true s (v.inb p s).1
          hl hk (λ q. r.read_keeps p q s)
          (bit_and-lt (r.register p s) (line_bit v line) (r.register-lt p s) small)
          (λ j hj.
            is_clear-bit_and (r.register p s) (line_bit v line) j (r.register-lt p s) small hj))
