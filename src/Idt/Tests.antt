-- ===== src/Idt/Tests.antt =====
-- The table and the controllers' masks, on ports that are latches.
use palley_os.Prelude.{
  ℕ, ◌-◌, ◌*◌, ◌%◌, ◌≡◌, ◌≢◌, refl, true, List, arith, ◌==◌, if◌then◌else◌, get_or, replicate,
}
use palley_os.Ports.{Ports, latches}
use palley_os.Idt.{IdtEntry, add_isr_to_idt, Symbols, blank, idt_init, interrupt_gate_32}
use palley_os.Idt.Gates.{attributes, target, add_isr_to_idt_lem, installed, idt_init-Gates}
use palley_os.Idt.Masks.{MaskRegisters}

abbrev table : List IdtEntry
table = replicate 256 blank

add_isr_to_idt_lem_example :
    let entries' = add_isr_to_idt 0x80 0x123456 3 interrupt_gate_32 table in
    (target (get_or entries' 0x80 blank) ≡ 0x123456)
    × ((get_or entries' 0x80 blank).selector ≡ 8)
    × ((get_or entries' 0x80 blank).zero ≡ 0)
    × ((get_or entries' 0x80 blank).type_attr ≡ attributes 3 interrupt_gate_32)
    × (◌≢◌ {A = ℕ} 7 0x80 → get_or entries' 7 blank ≡ get_or table 7 blank)
add_isr_to_idt_lem_example =
    add_isr_to_idt_lem 0x80 0x123456 3 interrupt_gate_32 7 table (omega arith) (omega arith)
      (omega arith) (omega arith)

abbrev symbols : Symbols
symbols = record {
  exceptions = record {
    div_by_zero_isr = 0x100000;
    debug_isr = 0x100010;
    breakpoint_isr = 0x100030;
    overflow_isr = 0x100040;
    bound_range_isr = 0x100050;
    invalid_opcode_isr = 0x100060;
    device_na_isr = 0x100070;
    double_fault_isr = 0x100080;
    invalid_tss_isr = 0x1000a0;
    seg_not_pres_isr = 0x1000b0;
    stack_seg_isr = 0x1000c0;
    general_prot_fault_isr = 0x1000d0;
    page_fault_isr = 0x1000e0;
    fpe_isr = 0x100100;
    align_check_isr = 0x100110;
    machine_check_isr = 0x100120;
    simd_fpe_isr = 0x100130;
    virt_isr = 0x100140;
  };
  pit_irq = 0x101000;
  keyboard_isr = 0x102000;
  ide_irq_isr = 0x103000;
  idt_entries_addr = 0x200000;
}

-- Both controllers with every line closed.
abbrev closed : ℕ → ℕ
closed port = 255

idt_init-Gates_example :
    (get_or (idt_init latches symbols closed).idt_entries 14 blank ≡ installed symbols 14)
    × ((idt_init latches symbols closed).idt_info.size ≡ 256 * 8 - 1)
    × ((idt_init latches symbols closed).idt_info.idt_addr ≡ 0x200000)
    × ((idt_init latches symbols closed).reported ≡ true)
idt_init-Gates_example = idt_init-Gates latches symbols closed 14

abbrev byte_latches : Ports
byte_latches = record {
  State = ℕ → ℕ;
  inb = λ port s. (s port % 256, s);
  outb = λ port value s q. if q == port then value else s q;
  inw = λ port s. (s port, s);
  outw = λ port value s q. if q == port then value else s q;
}

registers : MaskRegisters byte_latches
registers = record {
  register = λ port s. s port % 256;
  register-lt = λ port s. omega arith;
  read_port = λ port s. refl;
  read_keeps = λ port q s. refl;
  write_port = λ port value q s at small. ground arith;
}
