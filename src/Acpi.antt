-- ===== src/Acpi.antt =====
-- src/rsdp.c and src/acpi.c: the search of the BIOS's memory for the root system description pointer
-- and the checksums of the tables. The string that the search compares with stands in memory.
pub mod Search
mod Tests
use palley_os.Prelude.{
  ℕ, zero, suc, ◌+◌, ◌*◌, ◌%◌, ◌^◌, Bool, ◌&&◌, Option, none, some, ◌==◌, if◌then◌else◌,
}
use palley_os.Prelude.Memory.{Mem}
use palley_os.Kstdlib.{kmemcmp}

-- `sizeof(struct RSDPDescriptor)`, which is packed.
abbrev pub rsdp_size : ℕ
rsdp_size = 20

-- The loop of both checksums: the bytes are added in a byte.
unfoldable pub checksum_loop : ℕ → Mem → ℕ → ℕ → ℕ
checksum_loop zero m p sum = sum
checksum_loop (suc left) m p sum = checksum_loop left m (p + 1) ((sum + m p) % 256)

abbrev pub eval_rsdp_checksum : Mem → ℕ → Bool
eval_rsdp_checksum m rsdp = checksum_loop rsdp_size m rsdp 0 == 0

-- The field `length` of a table's header.
abbrev pub header_length : Mem → ℕ → ℕ
header_length m header =
    m (header + 4) + m (header + 5) * 2 ^ 8 + m (header + 6) * 2 ^ 16 + m (header + 7) * 2 ^ 24

abbrev pub acpi_eval_header_checksum : Mem → ℕ → Bool
acpi_eval_header_checksum m header = checksum_loop (header_length m header) m header 0 == 0

-- The loop of getRSDP, with `left` places to come; `name` is the address of the string.
unfoldable pub rsdp_loop : ℕ → Mem → ℕ → ℕ → Option ℕ
rsdp_loop zero m name loc = none
rsdp_loop (suc left) m name loc =
    let rest = rsdp_loop left m name (loc + 16) in
    if kmemcmp m name loc 8 == 0 && eval_rsdp_checksum m loc then some loc else rest

-- The places from 0x000E0000 to 0x000FFFFF in steps of 16; `none` is NULL.
unfoldable pub get_rsdp : Mem → ℕ → Option ℕ
get_rsdp m name = rsdp_loop 8192 m name 0xE0000
