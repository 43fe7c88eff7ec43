-- ===== src/Idt.antt =====
-- src/idt.c and the registrations of src/exceptions.c: the Interrupt Descriptor Table and the two
-- interrupt controllers. The table is the list of its 256 entries; a handler is its address.
pub mod Gates
pub mod Masks
mod Tests
use Prim.Native.Nat.{bit_and, bit_or}
use palley_os.Prelude.{
  ℕ, ◌+◌, ◌-◌, ◌*◌, ◌/◌, ◌%◌, ◌^◌, Bool, true, false, not, ◌||◌, List, [], ◌∷◌, ◌==◌, ltb,
  if◌then◌else◌, set, replicate,
}
use palley_os.Ports.{Ports}

pub record IdtEntry : Type 0 where
  pub offset_low : ℕ
  pub selector : ℕ
  pub zero : ℕ
  pub type_attr : ℕ
  pub offset_high : ℕ

abbrev pub task_gate : ℕ
task_gate = 0x5

abbrev pub interrupt_gate_16 : ℕ
interrupt_gate_16 = 0x6

abbrev pub trap_gate_16 : ℕ
trap_gate_16 = 0x7

abbrev pub interrupt_gate_32 : ℕ
interrupt_gate_32 = 0xE

abbrev pub trap_gate_32 : ℕ
trap_gate_32 = 0xF

abbrev pub pic1 : ℕ
pic1 = 0x20

abbrev pub pic2 : ℕ
pic2 = 0xA0

abbrev pub pic1_data : ℕ
pic1_data = pic1 + 1

abbrev pub pic2_data : ℕ
pic2_data = pic2 + 1

-- The type byte, with the last branch on bit 4.
unfoldable pub type_attr_of : ℕ → ℕ → ℕ
type_attr_of desc_level gate_type =
    let base = bit_or (bit_or (bit_and desc_level 0x3 * 2 ^ 5) (2 ^ 7)) (bit_and gate_type 0xf) in
    let known =
      gate_type == interrupt_gate_16
      || gate_type == interrupt_gate_32
      || gate_type == trap_gate_16
      || gate_type == trap_gate_32 in
    if known then bit_and base (255 - 2 ^ 4) else bit_or base (2 ^ 4)

unfoldable pub add_isr_to_idt : ℕ → ℕ → ℕ → ℕ → List IdtEntry → List IdtEntry
add_isr_to_idt num func_ptr desc_level gate_type entries = set entries num (record {
  offset_low = func_ptr % 2 ^ 16;
  selector = 0x08;
  zero = 0;
  type_attr = type_attr_of desc_level gate_type;
  offset_high = func_ptr / 2 ^ 16 % 2 ^ 16;
})

-- The entry points of isr.s for the exceptions, by the names that they have there.
pub record ExceptionIsrs : Type 0 where
  pub div_by_zero_isr : ℕ
  pub debug_isr : ℕ
  pub breakpoint_isr : ℕ
  pub overflow_isr : ℕ
  pub bound_range_isr : ℕ
  pub invalid_opcode_isr : ℕ
  pub device_na_isr : ℕ
  pub double_fault_isr : ℕ
  pub invalid_tss_isr : ℕ
  pub seg_not_pres_isr : ℕ
  pub stack_seg_isr : ℕ
  pub general_prot_fault_isr : ℕ
  pub page_fault_isr : ℕ
  pub fpe_isr : ℕ
  pub align_check_isr : ℕ
  pub machine_check_isr : ℕ
  pub simd_fpe_isr : ℕ
  pub virt_isr : ℕ

-- The calls of addExceptionsHandlersToIdt, in its order: the vector and the entry point.
abbrev pub exception_gates : ExceptionIsrs → List (ℕ × ℕ)
exception_gates isrs =
    (0, isrs.div_by_zero_isr)
    ∷ (1, isrs.debug_isr)
    ∷ (3, isrs.breakpoint_isr)
    ∷ (4, isrs.overflow_isr)
    ∷ (5, isrs.bound_range_isr)
    ∷ (6, isrs.invalid_opcode_isr)
    ∷ (7, isrs.device_na_isr)
    ∷ (8, isrs.double_fault_isr)
    ∷ (10, isrs.invalid_tss_isr)
    ∷ (11, isrs.seg_not_pres_isr)
    ∷ (12, isrs.stack_seg_isr)
    ∷ (13, isrs.general_prot_fault_isr)
    ∷ (14, isrs.page_fault_isr)
    ∷ (16, isrs.fpe_isr)
    ∷ (17, isrs.align_check_isr)
    ∷ (18, isrs.machine_check_isr)
    ∷ (19, isrs.simd_fpe_isr)
    ∷ (20, isrs.virt_isr)
    ∷ []

unfoldable pub add_traps : List (ℕ × ℕ) → List IdtEntry → List IdtEntry
add_traps [] entries = entries
add_traps ((num, isr) ∷ gates) entries =
    add_traps gates (add_isr_to_idt num isr 0 trap_gate_32 entries)

unfoldable pub add_exceptions_handlers_to_idt : ExceptionIsrs → List IdtEntry → List IdtEntry
unfolding add_traps
add_exceptions_handlers_to_idt isrs entries = add_traps (exception_gates isrs) entries

-- The entry points of idt_helper.s, isr.s and the timer, and the address of the table.
pub record Symbols : Type 0 where
  pub exceptions : ExceptionIsrs
  pub pit_irq : ℕ
  pub keyboard_isr : ℕ
  pub ide_irq_isr : ℕ
  pub idt_entries_addr : ℕ

-- IDTInfo, the operand of `lidt`.
pub record IdtInfo : Type 0 where
  pub size : ℕ
  pub idt_addr : ℕ

abbrev pub blank : IdtEntry
blank = record { offset_low = 0; selector = 0; zero = 0; type_attr = 0; offset_high = 0 }

-- What idtInit leaves: the table, the descriptor that it loads, whether it has reported a mismatch
-- of the table's location, and the devices.
pub record Init (D : Type 0) : Type 0 where
  pub idt_entries : List IdtEntry
  pub idt_info : IdtInfo
  pub reported : Bool
  pub devices : D

module _ (v : Ports) where
  open v use {State, inb, outb}

  -- The data port of the line's controller, and the line's bit there.
  abbrev pub data_port : ℕ → ℕ
  data_port irq_line = if ltb irq_line 8 then pic1_data else pic2_data

  abbrev pub line_bit : ℕ → ℕ
  line_bit irq_line = if ltb irq_line 8 then irq_line else irq_line - 8

  -- `1 << irq_line` is cut to the byte that is written.
  unfoldable pub irq_set_mask : ℕ → State → State
  irq_set_mask irq_line s =
      let port = data_port irq_line in
      let (value, s') = inb port s in outb port (bit_or value (2 ^ line_bit irq_line % 256)) s'

  unfoldable pub irq_clear_mask : ℕ → State → State
  irq_clear_mask irq_line s =
      let port = data_port irq_line in
      let (value, s') = inb port s in
      outb port (bit_and value (255 - 2 ^ line_bit irq_line % 256)) s'

  -- The writes of a list of ports and values, in order.
  unfoldable pub outb_all : List (ℕ × ℕ) → State → State
  outb_all [] s = s
  outb_all ((port, value) ∷ rest) s = outb_all rest (outb port value s)

  -- The waits between the writes touch no port. The offsets are cut to a byte.
  unfoldable pub remap_pic : ℕ → ℕ → State → State
  unfolding outb_all
  remap_pic offset1 offset2 s =
      outb_all
        ((pic1, 0x11)
          ∷ (pic2, 0x11)
          ∷ (pic1_data, offset1 % 256)
          ∷ (pic2_data, offset2 % 256)
          ∷ (pic1_data, 4)
          ∷ (pic2_data, 2)
          ∷ (pic1_data, 0x01)
          ∷ (pic2_data, 0x01)
          ∷ (pic1_data, 0xFC)
          ∷ (pic2_data, 0xFF)
          ∷ [])
        s

  -- The location that is compared is that of a local variable whose fields are zero: the call that
  -- would read the register is commented out.
  unfoldable pub idt_init : Symbols → State → Init State
  unfolding add_isr_to_idt add_exceptions_handlers_to_idt
  idt_init symbols s =
      let remapped = remap_pic 0x20 0x28 s in
      let zeroed = replicate 256 blank in
      let info : IdtInfo = record {
        size = (8 * 256) % 2 ^ 16 - 1;
        idt_addr = symbols.idt_entries_addr;
      } in
      let faults = add_exceptions_handlers_to_idt symbols.exceptions zeroed in
      let timer = add_isr_to_idt 0x20 symbols.pit_irq 0 interrupt_gate_32 faults in
      let keyboard = add_isr_to_idt 0x21 symbols.keyboard_isr 0 interrupt_gate_32 timer in
      let primary = add_isr_to_idt (0x20 + 14) symbols.ide_irq_isr 0 interrupt_gate_32 keyboard in
      let secondary = add_isr_to_idt (0x20 + 15) symbols.ide_irq_isr 0 interrupt_gate_32 primary in
      let stored : IdtInfo = record { size = 0; idt_addr = 0 } in
      record {
        idt_entries = secondary;
        idt_info = info;
        reported = stored.size == 0 || not (stored.idt_addr == info.idt_addr);
        devices = outb pic2_data 0xFF (outb pic1_data 0x3C remapped);
      }

-- The table that idt_add_isr leaves; it also loads the descriptor again, with interrupts off.
unfoldable pub idt_add_isr : ℕ → ℕ → ℕ → ℕ → List IdtEntry → List IdtEntry
idt_add_isr offset isr desc_level type entries = add_isr_to_idt offset isr desc_level type entries
