-- ===== src/Acpi/Tests.antt =====
-- A memory with a descriptor at 0xE0020, whose name stands at 100 as well.
use palley_os.Prelude.{ℕ, ◌-◌, ◌<◌, ◌==◌, ◌&&◌, leb, ltb, if◌then◌else◌, arith, IsByte, if_lem}
use palley_os.Prelude.Memory.{Mem}
use palley_os.Acpi.{get_rsdp}
use palley_os.Acpi.Search.{Located, get_rsdp-Located}

abbrev name_bytes : ℕ → ℕ
name_bytes i =
    if i == 0
    then 82
    else if i == 1
    then 83
    else if i == 2
    then 68
    else if i == 3
    then 32
    else if i == 4
    then 80
    else if i == 5
    then 84
    else if i == 6
    then 82
    else if i == 7
    then 32
    else if i == 8
    then 225
    else 0

abbrev bios : Mem
bios a =
    if leb 100 a && ltb a 108
    then name_bytes (a - 100)
    else if leb 0xE0020 a && ltb a 0xE0034
    then name_bytes (a - 0xE0020)
    else 0

name-small : (i : ℕ) → name_bytes i < 256
name-small i = ground arith

bios-bytes : (a : ℕ) → IsByte (bios a)
bios-bytes a =
    if_lem (λ b. b < 256) (leb 100 a && ltb a 108) (λ e. name-small (a - 100))
      (λ e.
        if_lem (λ b. b < 256) (leb 0xE0020 a && ltb a 0xE0034) (λ e. name-small (a - 0xE0020))
          (λ e. omega arith))

get_rsdp-Located_example : Located bios 100 8192 0xE0000 (get_rsdp bios 100)
get_rsdp-Located_example = get_rsdp-Located bios 100 bios-bytes
