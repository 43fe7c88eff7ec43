-- ===== src/Sknyfs.antt =====
-- src/sknyfs.c: the SknyFS driver, over a disk driver that the repository does not hold
-- (ideReadSectors and ideWriteSectors), which is a parameter. Locations are byte addresses on the
-- disk, as the source passes them.
pub mod Bits
pub mod Search
pub mod Mark
pub mod Format
pub mod Files
mod Tests
use Prim.Native.Nat.{bit_and, bit_or}
use palley_os.Prelude.Bits.{is_clear}
use palley_os.Prelude.{
  ℕ, zero, suc, ◌+◌, ◌-◌, ◌*◌, ◌/◌, ◌%◌, ◌^◌, ◌<◌, ◌≡◌, Bool, true, false, not, ◌&&◌, Option, none,
  some, List, [], ◌∷◌, ◌++◌, ◌==◌, ltb, leb, if◌then◌else◌, length, get_or, set, take, u32_mod,
}
use palley_os.Prelude.Memory.{Mem, store}
use palley_os.Kstdlib.{kstrcmp, kmemset, kstrncpy}

abbrev pub sector_size : ℕ
sector_size = 512

abbrev pub chunk_size : ℕ
chunk_size = 1024

abbrev pub sectors_per_chunk : ℕ
sectors_per_chunk = chunk_size / sector_size

abbrev pub bits_per_chunk : ℕ
bits_per_chunk = chunk_size * 8

abbrev pub chunks_in_allocation_map : ℕ
chunks_in_allocation_map = 16

abbrev pub chunks_in_file_map : ℕ
chunks_in_file_map = 16

abbrev pub file_map_begin : ℕ
file_map_begin = chunks_in_allocation_map * chunk_size

-- `sizeof(FileMetadata)`: a name of 252 bytes and a location of four.
abbrev pub metadata_size : ℕ
metadata_size = 256

abbrev pub name_size : ℕ
name_size = 252

abbrev pub files_per_chunk : ℕ
files_per_chunk = chunk_size / metadata_size

-- The bytes from an address on.
unfoldable pub bytes_at : Mem → ℕ → ℕ → List ℕ
bytes_at m p zero = []
bytes_at m p (suc n) = m p ∷ bytes_at m (p + 1) n

-- The disk driver, with NoError as 0. What is read is what the disk holds, and a write changes the
-- bytes that it names and no others, where the call reports no error; of a call that reports one
-- nothing is known.
pub record Driver : Type 1 where
  pub Disk : Type 0
  pub content : Disk → ℕ → ℕ → ℕ
  pub read : ℕ → ℕ → ℕ → Disk → ℕ × List ℕ
  pub write : ℕ → ℕ → ℕ → List ℕ → Disk → ℕ × Disk
  pub content-lt : (d : Disk) (drive a : ℕ) → content d drive a < 256
  pub read_ok :
      (drive num loc : ℕ) (d : Disk)
      → (read drive num loc d).0 ≡ 0
      → (read drive num loc d).1 ≡ bytes_at (content d drive) loc (num * sector_size)
  pub write_ok :
      (drive num loc : ℕ) (buffer : List ℕ) (d : Disk)
      → (write drive num loc buffer d).0 ≡ 0
      → length buffer ≡ num * sector_size
      → (a : ℕ)
      → content (write drive num loc buffer d).1 drive a ≡ (
          if leb loc a && ltb a (loc + num * sector_size)
          then get_or buffer (a - loc) 0
          else content d drive a)

pub data Status : Type 0 where
  ok write_failure read_failure filesystem_full file_not_found : Status

-- A status with what the call gives on SKNY_STATUS_OK.
pub data Lookup : Type 0 where
  found : ℕ → Lookup
  failed : Status → Lookup

-- The loop over the bits from `bit` on, with `left` of them to come.
unfoldable pub find_bit : ℕ → ℕ → ℕ → Option ℕ
find_bit zero bit byte_field = none
find_bit (suc left) bit byte_field =
    let rest = find_bit left (bit + 1) byte_field in
    if is_clear byte_field bit then some bit else rest

-- The loop over the bytes of a chunk of the map: the bit's place in the chunk.
unfoldable pub find_byte : List ℕ → ℕ → Option ℕ
unfolding find_bit
find_byte [] j = none
find_byte (byte_field ∷ bytes) j =
    let rest = find_byte bytes (j + 1) in
    if byte_field == 0xff
    then rest
    else elim (find_bit 8 0 byte_field) [ none ↦ rest | some bit ↦ some (j * 8 + bit) ]

module _ (v : Driver) where
  open v use {Disk, read, write}

  -- `ideReadSectors` and `ideWriteSectors` of a whole chunk.
  abbrev pub read_chunk : ℕ → ℕ → Disk → ℕ × List ℕ
  read_chunk drive loc d = read drive sectors_per_chunk loc d

  abbrev pub write_chunk : ℕ → ℕ → List ℕ → Disk → ℕ × Disk
  write_chunk drive loc buffer d = write drive sectors_per_chunk loc buffer d

  -- The loop over the chunks of the allocation map from `i` on, with `left` of them to come.
  unfoldable pub search_allocation_map_loop : ℕ → Disk → ℕ → ℕ → Lookup
  unfolding find_byte
  search_allocation_map_loop drive d zero i = failed filesystem_full
  search_allocation_map_loop drive d (suc left) i =
      let (err, map_chunk) = read_chunk drive (i * chunk_size) d in
      let rest = search_allocation_map_loop drive d left (i + 1) in
      let here : Lookup = elim (find_byte map_chunk 0) [
        | none ↦ rest
        | some offset ↦ found (i * bits_per_chunk + offset)
      ] in
      if err == 0 then here else failed read_failure

  unfoldable pub search_allocation_map : ℕ → Disk → Lookup
  unfolding search_allocation_map_loop
  search_allocation_map drive d = search_allocation_map_loop drive d chunks_in_allocation_map 0

  unfoldable pub mark_chunk_as_used : ℕ → ℕ → Disk → Status × Disk
  mark_chunk_as_used drive chunk_number d =
      let map_chunk = chunk_number / bits_per_chunk in
      let offset_into_map_chunk = chunk_number % bits_per_chunk in
      let byte_offset = offset_into_map_chunk / 8 in
      let bit_offset = offset_into_map_chunk % 8 in
      let location = map_chunk * chunk_size in
      let (err, buffer) = read_chunk drive location d in
      let changed =
        set buffer byte_offset (bit_or (get_or buffer byte_offset 0) (2 ^ bit_offset)) in
      let (err', d') = write_chunk drive location changed d in
      if not (err == 0)
      then (read_failure, d)
      else if not (err' == 0)
      then (write_failure, d')
      else (ok, d')
