-- ===== src/Sknyfs/Files/Round.antt =====
-- searchForFile after sknyCreateFile.
use palley_os.Prelude.{ℕ, ◌+◌, ◌*◌, ◌≤◌, ◌<◌, ◌≡◌, ◌∙◌, ◌⊎◌, inl, some, List, arith, length}
use palley_os.Prelude.Memory.{Mem, CStr}
use palley_os.Sknyfs.{
  Driver, ok, found, read_chunk, chunk_size, file_map_begin, metadata_size, name_size,
  chunks_in_file_map, search_allocation_map, mark_chunk_as_used,
}
use palley_os.Sknyfs.Mark.{mark-content}
use palley_os.Sknyfs.Search.{search_allocation_map-Finds, Finds}
use palley_os.Sknyfs.Files.{search_file_map, write_file_metadata, create_file, search_for_file}
use palley_os.Sknyfs.Files.Create.{create_file-found}
use palley_os.Sknyfs.Files.Stored.{bytes_at-agree, metadata-outside, metadata-entry}
use palley_os.Sknyfs.Files.Entry.{
  named_entry, length-named_entry, bytes_at-Copied, kstrcmp-named_entry,
}
use palley_os.Sknyfs.Files.Finding.{file_entry, OtherName, search_file_map-lt, search_for_file-at}

module _ (v : Driver) (drive : ℕ) (d : v.Disk) where
  chunk-lt : (n : ℕ) → search_allocation_map v drive d ≡ found n → n < 16 * 8192
  chunk-lt n chunk =
      let finds : Finds v drive d 0 (found n) =
        rw chunk at (search_allocation_map-Finds v drive d) in
      finds.1

  slot-lt : (k : ℕ) → search_file_map v drive d ≡ found k → k < 16 * 4
  unfolding search_file_map
  slot-lt k slot = omega (arith, search_file_map-lt v drive d chunks_in_file_map 0 k slot)

  module _ (n k : ℕ) (bs : List ℕ) (long : length bs ≡ metadata_size) (small : n < 16 * 8192)
      (marked : (mark_chunk_as_used v drive n d).0 ≡ ok)
      (written : (write_file_metadata v drive k bs (mark_chunk_as_used v drive n d).1).0 ≡ ok) where
    -- The other entries are as they were.
    entry-kept :
        (j : ℕ)
        → j < k
        → file_entry v drive
            (write_file_metadata v drive k bs (mark_chunk_as_used v drive n d).1).1
            j
          ≡ file_entry v drive d j
    entry-kept j h =
        let d1 = (mark_chunk_as_used v drive n d).1 in
        let p : ℕ = file_map_begin + j * metadata_size in
        bytes_at-agree (v.content (write_file_metadata v drive k bs d1).1 drive) (v.content d drive)
          p p metadata_size
          (λ i below.
            metadata-outside v drive k bs d1 long written (p + i) (inl (omega arith))
            ∙ mark-content v drive d n marked (p + i)
            ∙ ground arith)

-- sknyCreateFile and then searchForFile, where the name is a string away from both buffers, both
-- searches find a place, both writes succeed, the file map can be read afterwards, and kstrcmp takes
-- no entry before the one found for the name: the creation returns SKNY_STATUS_OK, the search for
-- the name on the disk that it leaves finds that entry, and the entry holds at most 251 characters
-- of the name, NULs up to 252 bytes, and the number of the chunk that was found.
pub create_file-search_for_file :
    (v : Driver) (drive fuel : ℕ) (m : Mem) (name file_metadata file : ℕ) (s : List ℕ) (d : v.Disk)
    (n k : ℕ)
    → CStr m name s
    → length s < fuel
    → (file_metadata + name_size ≤ name) ⊎ (name + length s < file_metadata)
    → (file + metadata_size ≤ name) ⊎ (name + length s < file)
    → search_allocation_map v drive d ≡ found n
    → search_file_map v drive d ≡ found k
    → (mark_chunk_as_used v drive n d).0 ≡ ok
    → (write_file_metadata v drive k (named_entry s n) (mark_chunk_as_used v drive n d).1).0 ≡ ok
    → ((i : ℕ)
        → i < chunks_in_file_map
        → (read_chunk v drive
            (file_map_begin + i * chunk_size)
            (write_file_metadata v drive k
              (named_entry s n)
              (mark_chunk_as_used v drive n d).1).1).0
          ≡ 0)
    → ((j : ℕ) → j < k → OtherName fuel m name file (file_entry v drive d j))
    → (d' : v.Disk) × (create_file v drive fuel m name file_metadata d ≡ some (ok, d'))
      × (search_for_file v drive fuel m name file d' ≡ some (found k))
      × (file_entry v drive d' k ≡ named_entry s n)
create_file-search_for_file v drive fuel m name file_metadata file s d n k named enough apart away
      chunk slot marked written readable others =
    let d1 = (mark_chunk_as_used v drive n d).1 in
    let d2 = (write_file_metadata v drive k (named_entry s n) d1).1 in
    let long = length-named_entry s n in
    let (after, copied, created) =
      create_file-found v drive fuel m name file_metadata s d named enough apart n k chunk slot in
    let held : file_entry v drive d2 k ≡ named_entry s n =
      metadata-entry v drive k (named_entry s n) d1 long written in
    let same =
      kstrcmp-named_entry fuel m after name file file_metadata n s named copied.there enough away in
    (
      d2,
      rw (bytes_at-Copied m after file_metadata s copied) at created,
      search_for_file-at v drive d2 fuel m name file k readable
          (omega (arith, slot-lt v drive d k slot))
          (λ j h.
            rw
              (entry-kept v drive d n k (named_entry s n) long (chunk-lt v drive d n chunk) marked
                written j h)
              (others j h))
          (rw held same),
      held,
    )
