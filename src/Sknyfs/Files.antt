-- ===== src/Sknyfs/Files.antt =====
-- The file map: searchFileMap, writeFileMetadata, searchForFile and sknyCreateFile. A file map
-- chunk is its 1024 bytes, four entries of 256. The memory that the string routines walk is given,
-- with the addresses of the local variables that they work on.
pub mod Create
pub mod Named
pub mod Stored
pub mod Entry
pub mod Finding
pub mod Round
use palley_os.Prelude.{
  ℕ, zero, suc, ◌+◌, ◌*◌, ◌/◌, ◌%◌, ◌^◌, Bool, not, Option, none, some, List, [], ◌∷◌, ◌++◌, ◌==◌,
  if◌then◌else◌, get_or, set,
}
use palley_os.Prelude.Memory.{Mem, store}
use palley_os.Kstdlib.{kstrcmp, kmemset, kstrncpy}
use palley_os.Sknyfs.{
  Driver, Status, ok, write_failure, read_failure, filesystem_full, Lookup, found, failed,
  read_chunk, write_chunk, bytes_at, search_allocation_map, mark_chunk_as_used, chunk_size,
  file_map_begin, files_per_chunk, metadata_size, name_size, chunks_in_file_map,
}

-- `files[index] = …` on the bytes of a chunk, and a local copy of bytes.
unfoldable pub set_bytes : List ℕ → ℕ → List ℕ → List ℕ
set_bytes files p [] = files
set_bytes files p (b ∷ bs) = set_bytes (set files p b) (p + 1) bs

unfoldable pub load_bytes : Mem → ℕ → List ℕ → Mem
load_bytes m p [] = m
load_bytes m p (b ∷ bs) = load_bytes (store m p b) (p + 1) bs

-- The bytes of entry `k` of a chunk.
unfoldable pub entry : List ℕ → ℕ → List ℕ
unfolding bytes_at
entry files k = bytes_at (λ a. get_or files a 0) (k * metadata_size) metadata_size

-- A uint32_t, its low byte first.
abbrev pub le32 : ℕ → List ℕ
le32 w = (w % 256) ∷ (w / 256 % 256) ∷ (w / 2 ^ 16 % 256) ∷ (w / 2 ^ 24 % 256) ∷ []

-- The loop over the entries of a chunk from `k` on, for one with an empty name.
unfoldable pub find_empty : ℕ → ℕ → List ℕ → Option ℕ
find_empty zero k files = none
find_empty (suc left) k files =
    let rest = find_empty left (k + 1) files in
    if get_or files (k * metadata_size) 0 == 0 then some k else rest

-- A loop over entries that may run out of fuel in a comparison.
pub data Match : Type 0 where
  at : ℕ → Match
  nowhere stuck : Match

-- The loop over the entries of a chunk from `k` on, for one that kstrcmp takes for `name`.
unfoldable pub find_named : ℕ → Mem → ℕ → ℕ → ℕ → ℕ → List ℕ → Match
find_named fuel m name file zero k files = nowhere
find_named fuel m name file (suc left) k files =
    let rest = find_named fuel m name file left (k + 1) files in
    elim (kstrcmp fuel (load_bytes m file (entry files k)) name file) [
      | none ↦ stuck
      | some order ↦ if order == 0 then at k else rest
    ]

module _ (v : Driver) (drive : ℕ) where
  -- The loop of searchFileMap over `left` chunks from `i` on.
  unfoldable pub search_file_map_loop : v.Disk → ℕ → ℕ → Lookup
  unfolding find_empty
  search_file_map_loop d zero i = failed filesystem_full
  search_file_map_loop d (suc left) i =
      let (err, files) = read_chunk v drive (file_map_begin + i * chunk_size) d in
      let rest = search_file_map_loop d left (i + 1) in
      let here : Lookup = elim (find_empty files_per_chunk 0 files) [
        | none ↦ rest
        | some k ↦ found (i * files_per_chunk + k)
      ] in
      if err == 0 then here else failed read_failure

  unfoldable pub search_file_map : v.Disk → Lookup
  unfolding search_file_map_loop
  search_file_map d = search_file_map_loop d chunks_in_file_map 0

  unfoldable pub write_file_metadata : ℕ → List ℕ → v.Disk → Status × v.Disk
  unfolding set_bytes
  write_file_metadata file_index file_metadata d =
      let location = file_map_begin + file_index / files_per_chunk * chunk_size in
      let (err, files) = read_chunk v drive location d in
      let changed = set_bytes files (file_index % files_per_chunk * metadata_size) file_metadata in
      let (err', d') = write_chunk v drive location changed d in
      if not (err == 0)
      then (read_failure, d)
      else if not (err' == 0)
      then (write_failure, d')
      else (ok, d')

  -- Of a `none` the fuel of the copy of the name has run out.
  unfoldable pub create_file : ℕ → Mem → ℕ → ℕ → v.Disk → Option (Status × v.Disk)
  create_file fuel m name file_metadata d = elim (search_allocation_map v drive d) [
    | failed status ↦ some (status, d)
    | found available_chunk ↦ elim (search_file_map d) [
      | failed status ↦ some (status, d)
      | found file_index ↦
          let (status, d1) = mark_chunk_as_used v drive available_chunk d in
          elim (kstrncpy fuel (kmemset m file_metadata 0 name_size) file_metadata name name_size) [
            | none ↦ none
            | some (m', num_written) ↦
                let (status', d2) =
                  write_file_metadata file_index
                    (bytes_at m' file_metadata name_size ++ le32 available_chunk) d1 in
                some (ok, d2)
          ]
    ]
  ]

  -- The loop of searchForFile over `left` chunks from `i` on; `none` is fuel that has run out.
  unfoldable pub search_for_file_loop : ℕ → Mem → ℕ → ℕ → v.Disk → ℕ → ℕ → Option Lookup
  search_for_file_loop fuel m name file d zero i = some (failed filesystem_full)
  search_for_file_loop fuel m name file d (suc left) i =
      let (err, files) = read_chunk v drive (file_map_begin + i * chunk_size) d in
      let rest = search_for_file_loop fuel m name file d left (i + 1) in
      let here : Option Lookup = elim (find_named fuel m name file files_per_chunk 0 files) [
        | at k ↦ some (found (i * files_per_chunk + k))
        | nowhere ↦ rest
        | stuck ↦ none
      ] in
      if err == 0 then here else some (failed read_failure)

  unfoldable pub search_for_file : ℕ → Mem → ℕ → ℕ → v.Disk → Option Lookup
  search_for_file fuel m name file d = search_for_file_loop fuel m name file d chunks_in_file_map 0

  -- The answer of a call that finds no file; of one that finds it the body ends without a result,
  -- which the inner `none` stands for.
  unfoldable pub write_file : ℕ → Mem → ℕ → ℕ → v.Disk → Option (Option Status)
  unfolding search_for_file
  write_file fuel m name file d = elim (search_for_file fuel m name file d) [
    | none ↦ none
    | some (found file_index) ↦ some none
    | some (failed status) ↦ some (some status)
  ]
