-- ===== src/Gdt.antt =====
-- src/gdt.c: the Global Descriptor Table and the task state segment. A descriptor's bit fields are
-- numbers, cut to their widths where the source assigns a wider value. The instructions that load
-- and store the table's register are the processor's: what the register is read as is given.
pub mod Segments
mod Tests
use palley_os.Prelude.{
  ℕ, ◌+◌, ◌-◌, ◌*◌, ◌/◌, ◌%◌, ◌^◌, Bool, true, false, not, ◌||◌, Option, none, some, List, [], ◌∷◌,
  ◌==◌, if◌then◌else◌, set, replicate,
}

pub record GdtEntry : Type 0 where
  pub limit_low : ℕ
  pub base_low : ℕ
  pub accessed : ℕ
  pub read_write : ℕ
  pub direction_conforming : ℕ
  pub executable : ℕ
  pub type : ℕ
  pub privilege : ℕ
  pub present : ℕ
  pub limit_high : ℕ
  pub available : ℕ
  pub long_mode : ℕ
  pub sz : ℕ
  pub granularity : ℕ
  pub base_high : ℕ

pub record TssEntry : Type 0 where
  pub prev_tss : ℕ
  pub esp0 : ℕ
  pub ss0 : ℕ
  pub esp1 : ℕ
  pub ss1 : ℕ
  pub esp2 : ℕ
  pub ss2 : ℕ
  pub cr3 : ℕ
  pub eip : ℕ
  pub eflags : ℕ
  pub eax : ℕ
  pub ecx : ℕ
  pub edx : ℕ
  pub ebx : ℕ
  pub esp : ℕ
  pub ebp : ℕ
  pub esi : ℕ
  pub edi : ℕ
  pub es : ℕ
  pub cs : ℕ
  pub ss : ℕ
  pub ds : ℕ
  pub fs : ℕ
  pub gs : ℕ
  pub ldtr : ℕ
  pub trap : ℕ
  pub iomap_base : ℕ

abbrev pub null_entry : GdtEntry
null_entry = record {
  limit_low = 0;
  base_low = 0;
  accessed = 0;
  read_write = 0;
  direction_conforming = 0;
  executable = 0;
  type = 0;
  privilege = 0;
  present = 0;
  limit_high = 0;
  available = 0;
  long_mode = 0;
  sz = 0;
  granularity = 0;
  base_high = 0;
}

abbrev pub generate_ring0_code_segment : GdtEntry
generate_ring0_code_segment = record null_entry {
  present = 1;
  privilege = 0;
  limit_low = 0xFFFF;
  limit_high = 0xF;
  base_low = 0;
  base_high = 0;
  granularity = 1;
  executable = 1;
  type = 1;
  read_write = 1;
  sz = 1;
}

abbrev pub generate_ring3_code_segment : GdtEntry
generate_ring3_code_segment = record null_entry {
  present = 1;
  privilege = 3;
  limit_low = 0xFFFF;
  limit_high = 0xF;
  base_low = 0;
  base_high = 0;
  granularity = 1;
  executable = 1;
  type = 1;
  read_write = 1;
  sz = 1;
}

-- `sizeof(tss_entry)`: 25 words of four bytes and two of two.
abbrev pub tss_size : ℕ
tss_size = 104

-- `base` is the address of tss_entry.
unfoldable pub generate_tss : ℕ → GdtEntry
generate_tss base = record null_entry {
  limit_low = tss_size % 2 ^ 16;
  base_low = base % 2 ^ 24;
  accessed = 1;
  read_write = 0;
  direction_conforming = 0;
  executable = 1;
  type = 0;
  privilege = 3;
  present = 1;
  limit_high = tss_size / 2 ^ 16 % 2 ^ 4;
  available = 0;
  granularity = 0;
  base_high = base / 2 ^ 24 % 2 ^ 8;
}

abbrev pub tss_zero : TssEntry
tss_zero = record {
  prev_tss = 0;
  esp0 = 0;
  ss0 = 0;
  esp1 = 0;
  ss1 = 0;
  esp2 = 0;
  ss2 = 0;
  cr3 = 0;
  eip = 0;
  eflags = 0;
  eax = 0;
  ecx = 0;
  edx = 0;
  ebx = 0;
  esp = 0;
  ebp = 0;
  esi = 0;
  edi = 0;
  es = 0;
  cs = 0;
  ss = 0;
  ds = 0;
  fs = 0;
  gs = 0;
  ldtr = 0;
  trap = 0;
  iomap_base = 0;
}

unfoldable pub write_tss_entry : ℕ → ℕ → TssEntry
write_tss_entry stack_segment kernel_stack_ptr = record tss_zero {
  ss0 = stack_segment;
  esp0 = kernel_stack_ptr;
  cs = 0x0b;
  ss = 0x10;
  ds = 0x10;
  es = 0x10;
  fs = 0x10;
  gs = 0x10;
}

unfoldable pub tss_set_kernel_stack : ℕ → TssEntry → TssEntry
tss_set_kernel_stack stack tss_entry = record tss_entry { esp0 = stack }

-- GDTPtr.
pub record GdtPtr : Type 0 where
  pub limit : ℕ
  pub base : ℕ

pub record Tables : Type 0 where
  pub gdt : List GdtEntry
  pub gp : GdtPtr
  pub tss_entry : TssEntry

abbrev pub gdt_set_gate : ℕ → GdtEntry → List GdtEntry → List GdtEntry
gdt_set_gate num entry gdt = set gdt num entry

-- The addresses of GDT, tss_entry and kernel_stack_top, and what the register is read as after the
-- load; `none` is the endless loop that follows a mismatch.
unfoldable pub gdt_init : ℕ → ℕ → ℕ → GdtPtr → List GdtEntry → Option Tables
unfolding generate_tss write_tss_entry
gdt_init gdt_addr tss_addr kernel_stack_top stored_gdt_loc before =
    let null_gate = gdt_set_gate 0 null_entry before in
    let ring0_code = gdt_set_gate 1 generate_ring0_code_segment null_gate in
    let ring0_data =
      gdt_set_gate 2 (record generate_ring0_code_segment { executable = 0 }) ring0_code in
    let ring3_code = gdt_set_gate 3 generate_ring3_code_segment ring0_data in
    let ring3_data =
      gdt_set_gate 4 (record generate_ring3_code_segment { executable = 0 }) ring3_code in
    let tss_gate = gdt_set_gate 5 (generate_tss tss_addr) ring3_data in
    let gp : GdtPtr = record { limit = 8 * 6 - 1; base = gdt_addr } in
    if stored_gdt_loc.limit == 0 || not (stored_gdt_loc.base == gp.base)
    then none
    else some
        (record { gdt = tss_gate; gp = gp; tss_entry = write_tss_entry 0x10 kernel_stack_top })
