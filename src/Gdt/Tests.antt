-- ===== src/Gdt/Tests.antt =====
-- gdtInit with a register that reads back.
use palley_os.Prelude.{◌-◌, ◌*◌, ◌≡◌, ◌≢◌, none, some, [], ◌∷◌, arith, length}
use palley_os.Gdt.{GdtPtr, Tables, null_entry, gdt_init}
use palley_os.Gdt.Segments.{AreSegments, gdt_init-AreSegments}

abbrev stored : GdtPtr
stored = record { limit = 47; base = 0x106000 }

gdt_init-AreSegments_example :
    let before = null_entry ∷ null_entry ∷ null_entry ∷ null_entry ∷ null_entry ∷ null_entry ∷ [] in
    (stored.base ≡ 0x106000
      → (t : Tables) × (gdt_init 0x106000 0x107000 0x110000 stored before ≡ some t)
        × AreSegments 0x107000 t.gdt
        × (t.gp.limit ≡ length t.gdt * 8 - 1)
        × (t.gp.base ≡ 0x106000)
        × (t.tss_entry.ss0 ≡ 16)
        × (t.tss_entry.esp0 ≡ 0x110000))
    × (stored.base ≢ 0x106000 → gdt_init 0x106000 0x107000 0x110000 stored before ≡ none)
gdt_init-AreSegments_example =
    gdt_init-AreSegments 0x106000 0x107000 0x110000 stored null_entry null_entry null_entry
      null_entry null_entry null_entry (omega arith) (omega arith)
