-- ===== src/Cpuid/Tests.antt =====
-- The name "GenuineIntel".
use palley_os.Prelude.{ℕ, ◌^◌, ◌≡◌, refl, List, [], ◌∷◌, ◌++◌, some, arith, replicate, set}
use palley_os.Cpuid.{Cpuid, Processor, word_loop, fetch_cpuid, load_cpuid, has_apic}
use palley_os.Cpuid.Vendor.{Spells, put_all, fetch_cpuid-Spells}

abbrev processor : Processor
processor = record {
  available = 0x200000;
  ebx = 0x756e6547;
  edx = 0x49656e69;
  ecx = 0x6c65746e;
  features_ecx = 0;
  features_edx = 2 ^ 9;
}

abbrev none_loaded : Cpuid
none_loaded = record { vendor_id = replicate 13 0; ecx_features = 0; edx_features = 0 }

fetch_cpuid-Spells_example :
    (x : List ℕ) × (y : List ℕ) × (z : List ℕ) × Spells 0x756e6547 x
    × Spells 0x49656e69 y
    × Spells 0x6c65746e z
    × (fetch_cpuid processor none_loaded
        ≡ some (record none_loaded {
          vendor_id = set (put_all 0 (x ++ (y ++ z)) (replicate 13 0)) 12 0;
        }))
fetch_cpuid-Spells_example =
    fetch_cpuid-Spells processor none_loaded (omega arith) (omega arith) (omega arith)

load_cpuid_genuine :
    load_cpuid processor none_loaded
    ≡ some (
      record {
        vendor_id = 71 ∷ 101 ∷ 110 ∷ 117 ∷ 105 ∷ 110 ∷ 101 ∷ 73 ∷ 110 ∷ 116 ∷ 101 ∷ 108 ∷ 0 ∷ [];
        ecx_features = 0;
        edx_features = 2 ^ 9;
      },
      has_apic,
    )
unfolding load_cpuid fetch_cpuid word_loop
load_cpuid_genuine = refl
