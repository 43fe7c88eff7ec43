-- ===== src/Exceptions.antt =====
-- src/exceptions.c: the handlers of the exceptions, which write to the terminal by kprintf and, but
-- for two of them, loop for ever. The strings of the source are given by their addresses. The
-- registration of the handlers stands in Idt.
pub mod Selector
pub mod Shown
mod Tests
use Prim.Native.Nat.{bit_and}
use palley_os.Prelude.{ℕ, ◌-◌, ◌/◌, Option, none, some, List, [], ◌∷◌, get_or, u32_mod}
use palley_os.Prelude.Memory.{Mem}
use palley_os.Ports.{Ports}
use palley_os.Paging.{Paging, handle_page_fault}
use palley_os.Kprintf.{kprintf}
use palley_os.Console.{S}

-- How a handler ends: it returns to its entry point, or is in `while(true)`.
pub data Ending : Type 0 where
  returned looping : Ending

-- The addresses of the formats, and of the names of the descriptor tables.
pub record Strings : Type 0 where
  pub div_by_zero : ℕ
  pub debug : ℕ
  pub breakpoint : ℕ
  pub overflow : ℕ
  pub bound_range_exceeded : ℕ
  pub invalid_opcode : ℕ
  pub device_na : ℕ
  pub double_fault : ℕ
  pub invalid_tss : ℕ
  pub seg_not_pres : ℕ
  pub stack_seg : ℕ
  pub general_prot_fault : ℕ
  pub table : ℕ
  pub gdt : ℕ
  pub second_idt : ℕ
  pub ldt : ℕ
  pub fourth_idt : ℕ
  pub fpe : ℕ
  pub align_check : ℕ
  pub machine_check : ℕ
  pub simd_fpe : ℕ
  pub virt : ℕ

-- `result` is the address of the buffer of kprintf.
module _ (v : Ports) (strings : Strings) (result fuel : ℕ) where
  -- What a handler leaves; `none` is fuel that has run out.
  abbrev pub Handled : Type 0
  Handled = Option (Ending × Mem × S v)

  unfoldable pub report : Ending → ℕ → List ℕ → Mem → S v → Handled
  report ending format args m c = elim (kprintf v result fuel m format args c) [
    | none ↦ none
    | some (m', c') ↦ some (ending, m', c')
  ]

  unfoldable pub div_by_zero_handler : Mem → S v → Handled
  unfolding report
  div_by_zero_handler m c = report looping strings.div_by_zero [] m c

  unfoldable pub debug_handler : Mem → S v → Handled
  unfolding report
  debug_handler m c = report looping strings.debug [] m c

  unfoldable pub breakpoint_handler : Mem → S v → Handled
  unfolding report
  breakpoint_handler m c = report looping strings.breakpoint [] m c

  unfoldable pub overflow_handler : Mem → S v → Handled
  unfolding report
  overflow_handler m c = report returned strings.overflow [] m c

  unfoldable pub bound_range_exceeded_handler : Mem → S v → Handled
  unfolding report
  bound_range_exceeded_handler m c = report looping strings.bound_range_exceeded [] m c

  unfoldable pub invalid_opcode_handler : Mem → S v → Handled
  unfolding report
  invalid_opcode_handler m c = report looping strings.invalid_opcode [] m c

  unfoldable pub device_na_handler : Mem → S v → Handled
  unfolding report
  device_na_handler m c = report looping strings.device_na [] m c

  unfoldable pub double_fault_handler : Mem → S v → Handled
  unfolding report
  double_fault_handler m c = report looping strings.double_fault [] m c

  unfoldable pub invalid_tss_handler : ℕ → Mem → S v → Handled
  unfolding report
  invalid_tss_handler err m c = report looping strings.invalid_tss (err ∷ []) m c

  unfoldable pub seg_not_pres_handler : ℕ → Mem → S v → Handled
  unfolding report
  seg_not_pres_handler err m c = report looping strings.seg_not_pres (err ∷ []) m c

  unfoldable pub stack_seg_handler : ℕ → Mem → S v → Handled
  unfolding report
  stack_seg_handler err m c = report looping strings.stack_seg (err ∷ []) m c

  unfoldable pub general_prot_fault_handler : ℕ → Mem → S v → Handled
  unfolding report
  general_prot_fault_handler err m c =
      elim (kprintf v result fuel m strings.general_prot_fault (err ∷ []) c) [
        | none ↦ none
        | some (m', c') ↦
            let tables = strings.gdt ∷ strings.second_idt ∷ strings.ldt ∷ strings.fourth_idt ∷ [] in
            let name = get_or tables (bit_and err 0x6 / 2) 0 in
            report looping strings.table (name ∷ (bit_and err (u32_mod - 8) / 8) ∷ []) m' c'
      ]

  unfoldable pub fpe_handler : Mem → S v → Handled
  unfolding report
  fpe_handler m c = report looping strings.fpe [] m c

  unfoldable pub align_check_handler : ℕ → Mem → S v → Handled
  unfolding report
  align_check_handler err m c = report looping strings.align_check (err ∷ []) m c

  unfoldable pub machine_check_handler : Mem → S v → Handled
  unfolding report
  machine_check_handler m c = report looping strings.machine_check [] m c

  unfoldable pub simd_fpe_handler : Mem → S v → Handled
  unfolding report
  simd_fpe_handler m c = report looping strings.simd_fpe [] m c

  unfoldable pub virt_handler : Mem → S v → Handled
  unfolding report
  virt_handler m c = report looping strings.virt [] m c

-- The error code is not looked at; `fault_address` is the register that handle_page_fault reads.
unfoldable pub page_fault_handler : ℕ → ℕ → Paging → Option Paging
page_fault_handler err fault_address p = handle_page_fault fault_address p
