-- ===== src/Cpuid.antt =====
-- src/cpuid.c: the vendor's name and the features. What the instruction stores is given: the three
-- words of the name, and the two of the features. A message is the constructor that names it.
pub mod Vendor
mod Tests
use palley_os.Prelude.{
  ℕ, zero, suc, ◌+◌, ◌/◌, ◌%◌, ◌^◌, Option, none, some, List, [], ◌∷◌, ◌==◌, ltb, if◌then◌else◌,
  set,
}

-- The static structure: thirteen characters, and the features.
pub record Cpuid : Type 0 where
  pub vendor_id : List ℕ
  pub ecx_features : ℕ
  pub edx_features : ℕ

-- What the instruction gives.
pub record Processor : Type 0 where
  pub available : ℕ
  pub ebx : ℕ
  pub edx : ℕ
  pub ecx : ℕ
  pub features_ecx : ℕ
  pub features_edx : ℕ

pub data Message : Type 0 where
  unable_to_load has_apic no_apic : Message

-- The loop `while(buff[j] > 0)`, with the index behind the last character; none is fuel that has run
-- out. A write behind the thirteen characters is not one into the name.
unfoldable pub word_loop : ℕ → ℕ → ℕ → List ℕ → Option (ℕ × List ℕ)
word_loop zero word i vendor_id = none
word_loop (suc fuel) word i vendor_id =
    let rest = word_loop fuel (word / 2 ^ 8) (i + 1) (set vendor_id i (word % 2 ^ 8)) in
    if ltb 0 word then rest else some (i, vendor_id)

abbrev pub word_rounds : ℕ
word_rounds = 5

unfoldable pub fetch_cpuid : Processor → Cpuid → Option Cpuid
fetch_cpuid p c = elim (word_loop word_rounds p.ebx 0 c.vendor_id) [
  | none ↦ none
  | some (i, first) ↦ elim (word_loop word_rounds p.edx i first) [
    | none ↦ none
    | some (j, second) ↦ elim (word_loop word_rounds p.ecx j second) [
      | none ↦ none
      | some (k, third) ↦ some (record c { vendor_id = set third 12 0 })
    ]
  ]
]

unfoldable pub load_cpuid : Processor → Cpuid → Option (Cpuid × Message)
load_cpuid p c =
    let fetched : Option (Cpuid × Message) = elim (fetch_cpuid p c) [
      | none ↦ none
      | some c' ↦ some (
        record c' { ecx_features = p.features_ecx; edx_features = p.features_edx },
        if p.features_edx / 2 ^ 9 % 2 == 1 then has_apic else no_apic,
      )
    ] in
    if p.available == 0 then some (c, unable_to_load) else fetched
