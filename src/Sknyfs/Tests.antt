-- ===== src/Sknyfs/Tests.antt =====
-- The file system on a driver whose disk is a function, which refuses what are no bytes.
use palley_os.Prelude.{
  ℕ, zero, suc, ◌+◌, ◌-◌, ◌*◌, ◌%◌, ◌<◌, ◌≡◌, refl, inl, inr, Bool, true, false, ◌&&◌, some, List,
  [], ◌∷◌, arith, ◌==◌, ltb, leb, if◌then◌else◌, Bool-cases, length, get_or, u32_mod,
}
use palley_os.Prelude.Memory.{Mem}
use palley_os.Sknyfs.{
  Driver, ok, found, bytes_at, search_allocation_map, mark_chunk_as_used, chunk_size,
  bits_per_chunk, chunks_in_allocation_map, file_map_begin,
}
use palley_os.Sknyfs.Search.{Finds, clear_bit, search_allocation_map-Finds}
use palley_os.Sknyfs.Format.{create_filesystem, sector_of, create_filesystem-Cleared}
use palley_os.Sknyfs.Files.{
  search_file_map, write_file_metadata, create_file, search_for_file, load_bytes,
}
use palley_os.Kstdlib.{kstrcmp}
use palley_os.Sknyfs.Files.Create.{create_file-marks}
use palley_os.Sknyfs.Files.Finding.{file_entry, OtherName}
use palley_os.Sknyfs.Files.Entry.{named_entry}
use palley_os.Sknyfs.Files.Round.{create_file-search_for_file}

abbrev all_bytes : List ℕ → Bool
all_bytes [] = true
all_bytes (b ∷ bs) = if ltb b 256 then all_bytes bs else false

get_or-byte : (bs : List ℕ) (i : ℕ) → all_bytes bs ≡ true → get_or bs i 0 < 256
get_or-byte [] i h = omega arith
get_or-byte (b ∷ bs) zero h = ground arith
get_or-byte (b ∷ bs) (suc i) h = get_or-byte bs i (ground arith)

abbrev Bytes : Type 0
Bytes = ℕ → ℕ → ℕ

abbrev written : ℕ → ℕ → ℕ → List ℕ → Bytes → Bytes
written drive num loc buffer d e a =
    if e == drive && (leb loc a && ltb a (loc + num * 512))
    then get_or buffer (a - loc) 0
    else d e a

abbrev content_of : Bytes → ℕ → ℕ → ℕ
content_of d drive a = d drive a % 256

written_ok :
    (drive num loc : ℕ) (buffer : List ℕ) (d : Bytes)
    → ◌≡◌ {A = ℕ} (if all_bytes buffer then 0 else 1) 0
    → length buffer ≡ num * 512
    → (a : ℕ)
    → content_of (written drive num loc buffer d) drive a ≡ (
        if leb loc a && ltb a (loc + num * 512)
        then get_or buffer (a - loc) 0
        else content_of d drive a)
written_ok drive num loc buffer d fine long a = elim (Bool-cases (all_bytes buffer)) [
  | inl e ↦
      let small : get_or buffer (a - loc) 0 < 256 = get_or-byte buffer (a - loc) e in ground arith
  | inr e ↦ ground arith
]

abbrev driver : Driver
driver = record {
  Disk = Bytes;
  content = content_of;
  read = λ drive num loc d. (0, bytes_at (content_of d drive) loc (num * 512));
  write =
      λ drive num loc buffer d. (if all_bytes buffer then 0 else 1, written drive num loc buffer d);
  content-lt = λ d drive a. omega arith;
  read_ok = λ drive num loc d fine. refl;
  write_ok = written_ok;
}

-- A disk on which the first three chunks are taken, and there is no file.
abbrev disk : Bytes
disk drive a = if a == 0 then 7 else 0

search_allocation_map-Finds_example : Finds driver 0 disk 0 (search_allocation_map driver 0 disk)
search_allocation_map-Finds_example = search_allocation_map-Finds driver 0 disk

marks : (mark_chunk_as_used driver 0 3 disk).0 ≡ ok
unfolding mark_chunk_as_used bytes_at
marks = refl

clears : (create_filesystem driver 0 disk).0 ≡ ok
unfolding create_filesystem sector_of
clears = refl

create_filesystem-Cleared_example :
    content_of (create_filesystem driver 0 disk).1 0 100
    ≡ (if ltb 100 (32 * chunk_size) then 0 else content_of disk 0 100)
create_filesystem-Cleared_example = create_filesystem-Cleared driver 0 disk clears 100

-- The name `a` at 1, and a buffer at 64.
abbrev memory : Mem
memory a = if a == 1 then 97 else 0

finds : search_allocation_map driver 0 disk ≡ found 3
unfolding search_allocation_map bytes_at
finds = refl

places : search_file_map driver 0 disk ≡ found 0
unfolding search_file_map bytes_at
places = refl

create_file-marks_example :
    (bytes : List ℕ) × (let marked = mark_chunk_as_used driver 0 3 disk in
      let after = write_file_metadata driver 0 0 bytes marked.1 in
      (create_file driver 0 4 memory 1 64 disk ≡ some (ok, after.1))
      × (marked.0 ≡ ok
          → after.0 ≡ ok
          → (j : ℕ) → j < chunks_in_allocation_map * bits_per_chunk
          → clear_bit driver 0 after.1 j ≡ (if j == 3 then false else clear_bit driver 0 disk j)))
create_file-marks_example =
    create_file-marks driver 0 4 memory 1 64 (97 ∷ []) disk (refl, omega arith, omega arith, refl)
      (omega arith) (inr (omega arith)) 3 0 finds places

-- A disk that holds the file `b` in the first entry besides.
abbrev disk_b : Bytes
disk_b drive a = if a == file_map_begin then 98 else disk drive a

finds_b : search_allocation_map driver 0 disk_b ≡ found 3
unfolding search_allocation_map bytes_at
finds_b = refl

places_b : search_file_map driver 0 disk_b ≡ found 1
unfolding search_file_map bytes_at
places_b = refl

marks_b : (mark_chunk_as_used driver 0 3 disk_b).0 ≡ ok
unfolding mark_chunk_as_used bytes_at
marks_b = refl

writes_b :
    (write_file_metadata driver 0 1
      (named_entry (97 ∷ []) 3)
      (mark_chunk_as_used driver 0 3 disk_b).1).0
    ≡ ok
unfolding write_file_metadata mark_chunk_as_used bytes_at
writes_b = refl

other_b : (j : ℕ) → j < 1 → OtherName 4 memory 1 512 (file_entry driver 0 disk_b j)
unfolding kstrcmp load_bytes bytes_at
other_b zero h = (u32_mod - 1, refl, λ e. absurd (omega arith))
other_b (suc j) h = absurd (omega arith)

create_file-search_for_file_example :
    (d' : Bytes) × (create_file driver 0 4 memory 1 64 disk_b ≡ some (ok, d'))
    × (search_for_file driver 0 4 memory 1 512 d' ≡ some (found 1))
    × (file_entry driver 0 d' 1 ≡ named_entry (97 ∷ []) 3)
create_file-search_for_file_example =
    create_file-search_for_file driver 0 4 memory 1 64 512 (97 ∷ []) disk_b 3 1
      (refl, omega arith, omega arith, refl) (omega arith) (inr (omega arith)) (inr (omega arith))
      finds_b places_b marks_b writes_b (λ i below. refl) other_b
