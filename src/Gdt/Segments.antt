-- ===== src/Gdt/Segments.antt =====
-- What the processor reads in the table that gdtInit leaves.
use palley_os.Prelude.{
  ℕ, ◌+◌, ◌-◌, ◌*◌, ◌^◌, ◌<◌, ◌≡◌, ◌≢◌, refl, true, none, some, List, [], ◌∷◌, arith, ◌==◌, ==_ne,
  ==_iff, if◌then◌else◌, length,
}
use palley_os.Gdt.{
  GdtEntry, GdtPtr, Tables, null_entry, generate_ring0_code_segment, generate_ring3_code_segment,
  generate_tss, gdt_init, write_tss_entry, tss_size,
}

-- The base, the limit and the size in bytes of a descriptor's segment.
abbrev pub segment_base : GdtEntry → ℕ
segment_base e = e.base_low + e.base_high * 2 ^ 24

abbrev pub segment_limit : GdtEntry → ℕ
segment_limit e = e.limit_low + e.limit_high * 2 ^ 16

abbrev pub segment_bytes : GdtEntry → ℕ
segment_bytes e = (segment_limit e + 1) * (if e.granularity == 1 then 4096 else 1)

-- A present 32-bit segment over the whole address space, of a privilege level, that holds code or
-- data.
abbrev pub IsFlat : ℕ → ℕ → GdtEntry → Type 0
IsFlat privilege executable e =
    (segment_base e ≡ 0)
    × (segment_bytes e ≡ 2 ^ 32)
    × (e.present ≡ 1)
    × (e.type ≡ 1)
    × (e.sz ≡ 1)
    × (e.privilege ≡ privilege)
    × (e.executable ≡ executable)

-- The present task state segment at an address.
abbrev pub IsTask : ℕ → GdtEntry → Type 0
IsTask addr e =
    (segment_base e ≡ addr)
    × (segment_limit e ≡ tss_size)
    × (e.granularity ≡ 0)
    × (e.present ≡ 1)
    × (e.type ≡ 0)
    × (e.accessed ≡ 1)
    × (e.executable ≡ 1)

-- The six descriptors, in order.
abbrev pub AreSegments : ℕ → List GdtEntry → Type 0
AreSegments tss_addr (e0 ∷ e1 ∷ e2 ∷ e3 ∷ e4 ∷ e5 ∷ []) =
    (e0 ≡ null_entry)
    × IsFlat 0 1 e1
    × IsFlat 0 0 e2
    × IsFlat 3 1 e3
    × IsFlat 3 0 e4
    × IsTask tss_addr e5
AreSegments tss_addr _ = ⊥

-- gdtInit, where the register reads back the address of the table and a limit that is not 0: the
-- table then holds the null descriptor, code and data of ring 0 and of ring 3 over the whole address
-- space, and the task state segment at its address; the register has the table's size less one; and
-- the task state names the kernel's data segment and its stack's top. Where the register reads
-- another address, gdtInit does not return.
pub gdt_init-AreSegments :
    (gdt_addr tss_addr stack : ℕ) (stored : GdtPtr) (a b c d e f : GdtEntry)
    → tss_addr < 2 ^ 32
    → stored.limit ≢ 0
    → let before = a ∷ b ∷ c ∷ d ∷ e ∷ f ∷ [] in
      (stored.base ≡ gdt_addr
        → (t : Tables) × (gdt_init gdt_addr tss_addr stack stored before ≡ some t)
          × AreSegments tss_addr t.gdt
          × (t.gp.limit ≡ length t.gdt * 8 - 1)
          × (t.gp.base ≡ gdt_addr)
          × (t.tss_entry.ss0 ≡ 16)
          × (t.tss_entry.esp0 ≡ stack))
      × (stored.base ≢ gdt_addr → gdt_init gdt_addr tss_addr stack stored before ≡ none)
unfolding gdt_init generate_tss write_tss_entry
gdt_init-AreSegments ga ta stack stored a b c d e f small nonzero = (
  λ same. (
    record {
      gdt =
          null_entry
          ∷ generate_ring0_code_segment
          ∷ record generate_ring0_code_segment { executable = 0 }
          ∷ generate_ring3_code_segment
          ∷ record generate_ring3_code_segment { executable = 0 }
          ∷ generate_tss ta
          ∷ [];
      gp = record { limit = 8 * 6 - 1; base = ga };
      tss_entry = write_tss_entry 0x10 stack;
    },
    rw (==_ne stored.limit 0 nonzero, here same) refl,
    (
      refl,
      (refl, refl, refl, refl, refl, refl, refl),
      (refl, refl, refl, refl, refl, refl, refl),
      (refl, refl, refl, refl, refl, refl, refl),
      (refl, refl, refl, refl, refl, refl, refl),
      (omega arith, refl, refl, refl, refl, refl, refl),
    ),
    refl,
    refl,
    refl,
    refl,
  ),
  λ differ. rw (==_ne stored.limit 0 nonzero, ==_ne stored.base ga differ) refl,
)
  where
    here : stored.base ≡ ga → (stored.base == ga) ≡ true
    here same = (==_iff stored.base ga).1 same
