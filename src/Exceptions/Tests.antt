-- ===== src/Exceptions/Tests.antt =====
-- generalProtFaultHandler on a terminal at its start.
use palley_os.Prelude.{
  ℕ, ◌+◌, ◌-◌, ◌≡◌, refl, inr, Bool, true, false, some, List, [], ◌∷◌, arith, ◌==◌, ltb,
  if◌then◌else◌, get_or,
}
use palley_os.Prelude.Memory.{Mem, CStr}
use palley_os.Ports.{latches}
use palley_os.Kstdio.{binary_digit}
use palley_os.Kstdio.Numbers.{Numeral}
use palley_os.Kstdio.Signed.{Signed}
use palley_os.Kstdio.Format.{format_of}
use palley_os.Vga.{vga_color_white}
use palley_os.Console.{Console, S, tio_init}
use palley_os.Console.View.{Text, Refines}
use palley_os.Console.Text.{write, tio_init-Refines}
use palley_os.Exceptions.{Strings, looping, general_prot_fault_handler}
use palley_os.Exceptions.Selector.{error_code_items, selector_items, table_name}
use palley_os.Exceptions.Shown.{
  Standing, first_line, second_line, general_prot_fault_handler-Refines,
}

-- A string in a memory, which evaluation decides.
abbrev holds : Mem → ℕ → List ℕ → Bool
holds m p [] = m p == 0
holds m p (c ∷ s) =
    if c == 0
    then false
    else if ltb c 256
    then (if m p == c then holds m (p + 1) s else false)
    else false

holds-CStr : (m : Mem) (p : ℕ) (s : List ℕ) → holds m p s ≡ true → CStr m p s
holds-CStr m p [] h = ground arith
holds-CStr m p (c ∷ s) h =
    (ground arith, ground arith, ground arith, holds-CStr m (p + 1) s (ground arith))

abbrev off : Console latches.State
off = record {
  platform_vb = λ i. 32;
  pages = λ k. 0;
  num_pages = 0;
  blank_buffer_page = λ k. 0;
  row = 0;
  height = 0;
  width = 0;
  x = 0;
  y = 0;
  on_screen = false;
  devices = λ port. 0;
}

abbrev empty : Text
empty = record { cells = (tio_init latches off).pages; at = 0 }

abbrev memory : Mem
memory a =
    if ltb a 100
    then get_or (format_of (error_code_items 0)) a 0
    else if ltb a 200
    then get_or (format_of (selector_items 0 [] 0)) (a - 100) 0
    else if ltb a 210
    then get_or (71 ∷ 68 ∷ 84 ∷ []) (a - 200) 0
    else if ltb a 220
    then get_or (73 ∷ 68 ∷ 84 ∷ []) (a - 210) 0
    else get_or (76 ∷ 68 ∷ 84 ∷ []) (a - 220) 0

abbrev addresses : Strings
addresses = record {
  div_by_zero = 0;
  debug = 0;
  breakpoint = 0;
  overflow = 0;
  bound_range_exceeded = 0;
  invalid_opcode = 0;
  device_na = 0;
  double_fault = 0;
  invalid_tss = 0;
  seg_not_pres = 0;
  stack_seg = 0;
  general_prot_fault = 0;
  table = 100;
  gdt = 200;
  second_idt = 210;
  ldt = 220;
  fourth_idt = 210;
  fpe = 0;
  align_check = 0;
  machine_check = 0;
  simd_fpe = 0;
  virt = 0;
}

stands : Standing addresses 1000 memory
stands = record {
  first = holds-CStr memory 0 (format_of (error_code_items 0)) refl;
  second = holds-CStr memory 100 (format_of (selector_items 0 [] 0)) refl;
  gdt = holds-CStr memory 200 (71 ∷ 68 ∷ 84 ∷ []) refl;
  second_idt = holds-CStr memory 210 (73 ∷ 68 ∷ 84 ∷ []) refl;
  ldt = holds-CStr memory 220 (76 ∷ 68 ∷ 84 ∷ []) refl;
  fourth_idt = holds-CStr memory 210 (73 ∷ 68 ∷ 84 ∷ []) refl;
  first_apart = inr (omega arith);
  second_apart = inr (omega arith);
  gdt_apart = inr (omega arith);
  second_idt_apart = inr (omega arith);
  ldt_apart = inr (omega arith);
  fourth_idt_apart = inr (omega arith);
}

-- The local table, with the selector index 5.
general_prot_fault_handler-Refines_example :
    (digits index : List ℕ) × (m : Mem) × (c : S latches) × (general_prot_fault_handler latches
        addresses 1000 2000 44 memory
        (tio_init latches off)
      ≡ some (looping, m, c))
    × Numeral 2 binary_digit 44 digits
    × Signed 5 index
    × Refines
        (write
          (second_line (table_name 44) index)
          vga_color_white
          (write (first_line digits) vga_color_white empty))
        c
general_prot_fault_handler-Refines_example =
    general_prot_fault_handler-Refines latches 1000 2000 (omega arith) addresses 44 memory empty
      (tio_init latches off) (omega arith) stands (tio_init-Refines latches off (λ i h. refl))
      (omega arith)
