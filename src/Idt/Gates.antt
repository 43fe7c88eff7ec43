-- ===== src/Idt/Gates.antt =====
-- addIsrToIdt and idtInit: the entries that the table holds.
use palley_os.Prelude.{
  ℕ, zero, suc, ◌+◌, ◌-◌, ◌*◌, ◌/◌, ◌%◌, ◌^◌, ◌<◌, ◌≡◌, ◌≢◌, refl, ap, ◌∙◌, Bool, true, ◌||◌, List,
  [], ◌∷◌, arith, ◌==◌, if◌then◌else◌, ==_iff, ==_ne, length, get_or, set, replicate, length-set,
  length-replicate, get_or-set,
}
use palley_os.Prelude.Bits.{holds_below, holds_below-at}
use palley_os.Ports.{Ports}
use palley_os.Idt.{
  IdtEntry, type_attr_of, add_isr_to_idt, add_traps, add_exceptions_handlers_to_idt,
  exception_gates, ExceptionIsrs, Symbols, blank, idt_init, interrupt_gate_32, interrupt_gate_16,
  trap_gate_16, trap_gate_32,
}

-- The gates whose storage segment bit is to be clear.
abbrev pub known : ℕ → Bool
known gate_type =
    gate_type == interrupt_gate_16
    || gate_type == interrupt_gate_32
    || gate_type == trap_gate_16
    || gate_type == trap_gate_32

-- Present, the privilege level, the storage segment bit and the gate's type, as the processor reads
-- them.
abbrev pub attributes : ℕ → ℕ → ℕ
attributes desc_level gate_type =
    128 + desc_level * 32 + (if known gate_type then 0 else 16) + gate_type

type_table : holds_below 4 (λ d. holds_below 16 (λ g. type_attr_of d g == attributes d g)) ≡ true
unfolding holds_below type_attr_of
type_table = refl

type_attr_of-attributes : (d g : ℕ) → d < 4 → g < 16 → type_attr_of d g ≡ attributes d g
type_attr_of-attributes d g hd hg = (==_iff _ _).0 (
    holds_below-at 16 (λ g. type_attr_of d g == attributes d g) g
      (holds_below-at 4 (λ d. holds_below 16 (λ g. type_attr_of d g == attributes d g)) d type_table
        hd)
      hg)

-- The address that the processor calls through an entry.
abbrev pub target : IdtEntry → ℕ
target e = e.offset_low + e.offset_high * 2 ^ 16

-- addIsrToIdt: for an entry of the table, a 32-bit address, a privilege level and a gate type, the
-- processor finds the address in the entry, with the kernel's code segment 8, and the attributes
-- present, that level and that type, with the storage segment bit clear for the interrupt and trap
-- gates and set for every other type; each other entry of the table is as it was.
pub add_isr_to_idt_lem :
    (num func_ptr desc_level gate_type k : ℕ) (entries : List IdtEntry)
    → num < length entries
    → func_ptr < 2 ^ 32
    → desc_level < 4
    → gate_type < 16
    → let entries' = add_isr_to_idt num func_ptr desc_level gate_type entries in
      (target (get_or entries' num blank) ≡ func_ptr)
      × ((get_or entries' num blank).selector ≡ 8)
      × ((get_or entries' num blank).zero ≡ 0)
      × ((get_or entries' num blank).type_attr ≡ attributes desc_level gate_type)
      × (k ≢ num → get_or entries' k blank ≡ get_or entries k blank)
unfolding add_isr_to_idt
add_isr_to_idt_lem num func_ptr desc_level gate_type k entries h hp hd hg =
    let new : IdtEntry = record {
      offset_low = func_ptr % 2 ^ 16;
      selector = 0x08;
      zero = 0;
      type_attr = type_attr_of desc_level gate_type;
      offset_high = func_ptr / 2 ^ 16 % 2 ^ 16;
    } in
    let here : get_or (set entries num new) num blank ≡ new =
      get_or-set entries num num new blank h ∙ ground arith in
    (
      ap target here ∙ omega arith,
      ap (λ (e : IdtEntry). e.selector) here,
      ap (λ (e : IdtEntry). e.zero) here,
      ap (λ (e : IdtEntry). e.type_attr) here ∙ type_attr_of-attributes desc_level gate_type hd hg,
      λ ne. get_or-set entries num k new blank h ∙ rw (==_ne k num ne) refl,
    )

-- The entry that a registration without privilege leaves.
abbrev pub gate : ℕ → ℕ → IdtEntry
gate isr gate_type = record {
  offset_low = isr % 2 ^ 16;
  selector = 0x08;
  zero = 0;
  type_attr = 128 + gate_type;
  offset_high = isr / 2 ^ 16 % 2 ^ 16;
}

kernel_type : (g : ℕ) → known g ≡ true → g < 16 → type_attr_of 0 g ≡ 128 + g
kernel_type g h lt = type_attr_of-attributes 0 g (omega arith) lt ∙ rw h (omega arith)

get_or-add_isr :
    (num isr g k : ℕ) (entries : List IdtEntry)
    → num < length entries
    → known g ≡ true
    → g < 16
    → get_or (add_isr_to_idt num isr 0 g entries) k blank
      ≡ (if k == num then gate isr g else get_or entries k blank)
unfolding add_isr_to_idt
get_or-add_isr num isr g k entries h hg lt =
    rw (kernel_type g hg lt) (get_or-set entries num k (gate isr g) blank h)

length-add_isr :
    (num isr d g : ℕ) (entries : List IdtEntry)
    → length (add_isr_to_idt num isr d g entries) ≡ length entries
unfolding add_isr_to_idt
length-add_isr num isr d g entries = length-set entries num _

length-add_traps :
    (gates : List (ℕ × ℕ)) (entries : List IdtEntry)
    → length (add_traps gates entries) ≡ length entries
unfolding add_traps
length-add_traps [] entries = refl
length-add_traps ((num, isr) ∷ gates) entries =
    length-add_traps gates _ ∙ length-add_isr num isr 0 trap_gate_32 entries

-- Every vector of a list is below 32.
abbrev AllSmall : List (ℕ × ℕ) → Type 0
AllSmall [] = Unit
AllSmall (g ∷ gates) = (g.0 < 32) × AllSmall gates

-- The entry at a vector behind the registrations of a list, the last of which stays.
abbrev traps_at : List (ℕ × ℕ) → ℕ → IdtEntry → IdtEntry
traps_at [] k e = e
traps_at (g ∷ gates) k e = traps_at gates k (if k == g.0 then gate g.1 trap_gate_32 else e)

get_or-add_traps :
    (gates : List (ℕ × ℕ)) (entries : List IdtEntry) (k : ℕ)
    → AllSmall gates
    → 32 < length entries
    → get_or (add_traps gates entries) k blank ≡ traps_at gates k (get_or entries k blank)
unfolding add_traps
get_or-add_traps [] entries k small h = refl
get_or-add_traps ((num, isr) ∷ gates) entries k small h =
    let next = add_isr_to_idt num isr 0 trap_gate_32 entries in
    get_or-add_traps gates next k small.1 (rw (length-add_isr num isr 0 trap_gate_32 entries) h)
    ∙ ap (traps_at gates k)
        (get_or-add_isr num isr trap_gate_32 k entries (omega (arith, small.0)) refl (omega arith))

get_or-blank : (n k : ℕ) → get_or (replicate n blank) k blank ≡ blank
get_or-blank zero k = refl
get_or-blank (suc n) zero = refl
get_or-blank (suc n) (suc k) = get_or-blank n k

-- The trap gates of the exceptions, by the vectors that the processor gives them: no gate for the
-- non-maskable interrupt, nor for the vectors 9 and 15, which it reserves.
abbrev pub exception_gate : ExceptionIsrs → ℕ → IdtEntry
exception_gate isrs k =
    if k == 20
    then gate isrs.virt_isr trap_gate_32
    else if k == 19
    then gate isrs.simd_fpe_isr trap_gate_32
    else if k == 18
    then gate isrs.machine_check_isr trap_gate_32
    else if k == 17
    then gate isrs.align_check_isr trap_gate_32
    else if k == 16
    then gate isrs.fpe_isr trap_gate_32
    else if k == 14
    then gate isrs.page_fault_isr trap_gate_32
    else if k == 13
    then gate isrs.general_prot_fault_isr trap_gate_32
    else if k == 12
    then gate isrs.stack_seg_isr trap_gate_32
    else if k == 11
    then gate isrs.seg_not_pres_isr trap_gate_32
    else if k == 10
    then gate isrs.invalid_tss_isr trap_gate_32
    else if k == 8
    then gate isrs.double_fault_isr trap_gate_32
    else if k == 7
    then gate isrs.device_na_isr trap_gate_32
    else if k == 6
    then gate isrs.invalid_opcode_isr trap_gate_32
    else if k == 5
    then gate isrs.bound_range_isr trap_gate_32
    else if k == 4
    then gate isrs.overflow_isr trap_gate_32
    else if k == 3
    then gate isrs.breakpoint_isr trap_gate_32
    else if k == 1
    then gate isrs.debug_isr trap_gate_32
    else if k == 0
    then gate isrs.div_by_zero_isr trap_gate_32
    else blank

-- What the table is to hold at a vector once the kernel has set it up.
abbrev pub installed : Symbols → ℕ → IdtEntry
installed symbols k =
    if k == 0x2f
    then gate symbols.ide_irq_isr interrupt_gate_32
    else if k == 0x2e
    then gate symbols.ide_irq_isr interrupt_gate_32
    else if k == 0x21
    then gate symbols.keyboard_isr interrupt_gate_32
    else if k == 0x20
    then gate symbols.pit_irq interrupt_gate_32
    else exception_gate symbols.exceptions k

-- idtInit: after it the table has a trap gate of the kernel's code segment to its own entry point for
-- each of the eighteen handled exceptions, an interrupt gate for the timer, the keyboard and the two disk channels, and a blank
-- entry at every other vector; the descriptor that is loaded has the table's size less one and its
-- address; and the mismatch of the table's location is reported whatever the address is.
pub idt_init-Gates :
    (v : Ports) (symbols : Symbols) (s : v.State) (k : ℕ)
    → (get_or (idt_init v symbols s).idt_entries k blank ≡ installed symbols k)
      × ((idt_init v symbols s).idt_info.size ≡ 256 * 8 - 1)
      × ((idt_init v symbols s).idt_info.idt_addr ≡ symbols.idt_entries_addr)
      × ((idt_init v symbols s).reported ≡ true)
unfolding idt_init add_exceptions_handlers_to_idt
idt_init-Gates v symbols s k =
    let zeroed = replicate 256 blank in
    let faults = add_traps (exception_gates symbols.exceptions) zeroed in
    let timer = add_isr_to_idt 0x20 symbols.pit_irq 0 interrupt_gate_32 faults in
    let keyboard = add_isr_to_idt 0x21 symbols.keyboard_isr 0 interrupt_gate_32 timer in
    let primary = add_isr_to_idt 0x2e symbols.ide_irq_isr 0 interrupt_gate_32 keyboard in
    let l0 : length faults ≡ 256 =
      length-add_traps (exception_gates symbols.exceptions) zeroed ∙ length-replicate 256 blank in
    let l1 : length timer ≡ 256 =
      length-add_isr 0x20 symbols.pit_irq 0 interrupt_gate_32 faults ∙ l0 in
    let l2 : length keyboard ≡ 256 =
      length-add_isr 0x21 symbols.keyboard_isr 0 interrupt_gate_32 timer ∙ l1 in
    let l3 : length primary ≡ 256 =
      length-add_isr 0x2e symbols.ide_irq_isr 0 interrupt_gate_32 keyboard ∙ l2 in
    (
      get_or-add_isr 0x2f symbols.ide_irq_isr interrupt_gate_32 k primary (omega (arith, l3)) refl
            (omega arith)
          ∙ ap (λ e. if k == 0x2f then gate symbols.ide_irq_isr interrupt_gate_32 else e)
              (get_or-add_isr 0x2e symbols.ide_irq_isr interrupt_gate_32 k keyboard
                  (omega (arith, l2)) refl (omega arith)
                ∙ ap (λ e. if k == 0x2e then gate symbols.ide_irq_isr interrupt_gate_32 else e)
                    (get_or-add_isr 0x21 symbols.keyboard_isr interrupt_gate_32 k timer
                        (omega (arith, l1)) refl (omega arith)
                      ∙ ap
                          (λ e.
                            if k == 0x21 then gate symbols.keyboard_isr interrupt_gate_32 else e)
                          (get_or-add_isr 0x20 symbols.pit_irq interrupt_gate_32 k faults
                              (omega (arith, l0)) refl (omega arith)
                            ∙ ap
                                (λ e.
                                  if k == 0x20 then gate symbols.pit_irq interrupt_gate_32 else e)
                                (get_or-add_traps (exception_gates symbols.exceptions) zeroed k
                                    (ground arith) (rw (length-replicate 256 blank) (omega arith))
                                  ∙ ap (traps_at (exception_gates symbols.exceptions) k)
                                      (get_or-blank 256 k))))),
      refl,
      refl,
      refl,
    )
