-- ===== src/Sknyfs/Files/Create.antt =====
-- sknyCreateFile: what it leaves in the allocation map, and that it never reports a failed write.
use palley_os.Prelude.{
  ℕ, ◌+◌, ◌*◌, ◌/◌, ◌%◌, ◌≤◌, ◌<◌, ◌≡◌, ◌≢◌, refl, sym, ap, ◌∙◌, ◌⊎◌, inl, inr, false, not, some,
  List, [], ◌∷◌, ◌++◌, arith, ◌==◌, if◌then◌else◌, Bool-cases, ==_iff, ==_ne, length, set,
  length-set, take, ◌-◌, ◌&&◌, leb, ltb, get_or,
}
use palley_os.Prelude.Memory.{Mem, CStr, CStr-agree}
use palley_os.Prelude.Bits.{is_clear}
use palley_os.Kstdlib.{kmemset}
use palley_os.Kstdlib.Fill.{kmemset_lem}
use palley_os.Kstdlib.Strings.{Copied, kstrncpy-Copied}
use palley_os.Sknyfs.{
  Driver, Status, ok, read_failure, write_failure, found, bytes_at, read_chunk, write_chunk,
  chunk_size, file_map_begin, files_per_chunk, metadata_size, search_allocation_map,
  mark_chunk_as_used, name_size, chunks_in_allocation_map, bits_per_chunk,
}
use palley_os.Sknyfs.Mark.{length-bytes_at, mark_chunk_as_used_lem}
use palley_os.Sknyfs.Search.{clear_bit}
use palley_os.Sknyfs.Files.{set_bytes, le32, search_file_map, write_file_metadata, create_file}

pub length-set_bytes :
    (files : List ℕ) (p : ℕ) (bs : List ℕ) → length (set_bytes files p bs) ≡ length files
unfolding set_bytes
length-set_bytes files p [] = refl
length-set_bytes files p (b ∷ bs) =
    length-set_bytes (set files p b) (p + 1) bs ∙ length-set files p b

module _ (v : Driver) (drive file_index : ℕ) (file_metadata : List ℕ) (d : v.Disk) where
  abbrev pub location : ℕ
  location = file_map_begin + file_index / files_per_chunk * chunk_size

  abbrev pub changed : List ℕ
  changed =
      set_bytes (bytes_at (v.content d drive) location chunk_size)
        (file_index % files_per_chunk * metadata_size) file_metadata

  metadata-read_failure :
      (read_chunk v drive location d).0 ≢ 0
      → write_file_metadata v drive file_index file_metadata d ≡ (read_failure, d)
  unfolding write_file_metadata
  metadata-read_failure bad = rw (==_ne _ 0 bad) refl

  metadata-write :
      (read_chunk v drive location d).0 ≡ 0
      → write_file_metadata v drive file_index file_metadata d ≡ (
          if not ((write_chunk v drive location changed d).0 == 0)
          then (write_failure, (write_chunk v drive location changed d).1)
          else (ok, (write_chunk v drive location changed d).1))
  unfolding write_file_metadata
  metadata-write fine = rw (v.read_ok drive 2 location d fine, fine) refl

  -- The two calls of the driver that a success has gone through.
  metadata-calls :
      (write_file_metadata v drive file_index file_metadata d).0 ≡ ok
      → ((write_chunk v drive location changed d).0 ≡ 0)
        × ((write_file_metadata v drive file_index file_metadata d).1
            ≡ (write_chunk v drive location changed d).1)
  metadata-calls h = elim (Bool-cases ((read_chunk v drive location d).0 == 0)) [
    | inl fine ↦ elim (Bool-cases ((write_chunk v drive location changed d).0 == 0)) [
      | inl written ↦
          let e : write_file_metadata v drive file_index file_metadata d
              ≡ (ok, (write_chunk v drive location changed d).1) =
            metadata-write ((==_iff _ 0).0 fine) ∙ rw written refl in
          ((==_iff _ 0).0 written, ap (λ (r : Status × v.Disk). r.1) e)
      | inr failed ↦
          let e : write_file_metadata v drive file_index file_metadata d
              ≡ (write_failure, (write_chunk v drive location changed d).1) =
            metadata-write ((==_iff _ 0).0 fine) ∙ rw failed refl in
          absurd (clash (sym (ap (λ (r : Status × v.Disk). r.0) e) ∙ h))
    ]
    | inr bad ↦ absurd (
        clash' (sym (ap (λ (r : Status × v.Disk). r.0) (metadata-read_failure (ground arith))) ∙ h))
  ]
    where
      clash : write_failure ≡ ok → ⊥
      clash e = cc

      clash' : read_failure ≡ ok → ⊥
      clash' e = cc

  -- The disk's bytes after a success.
  pub metadata-content :
      (write_file_metadata v drive file_index file_metadata d).0 ≡ ok
      → (a : ℕ)
      → v.content (write_file_metadata v drive file_index file_metadata d).1 drive a ≡ (
          if leb location a && ltb a (location + 2 * 512)
          then get_or changed (a - location) 0
          else v.content d drive a)
  metadata-content h a =
      let (written, after) = metadata-calls h in
      let long : length changed ≡ 2 * 512 =
        length-set_bytes (bytes_at (v.content d drive) location chunk_size)
          (file_index % files_per_chunk * metadata_size) file_metadata
        ∙ length-bytes_at (v.content d drive) location chunk_size in
      rw after (v.write_ok drive 2 location changed d written long a)

  -- A success leaves the allocation map, which lies in front of the file map.
  pub metadata-before :
      (write_file_metadata v drive file_index file_metadata d).0 ≡ ok
      → (a : ℕ) → a < file_map_begin
      → v.content (write_file_metadata v drive file_index file_metadata d).1 drive a
        ≡ v.content d drive a
  metadata-before h a before = metadata-content h a ∙ ground arith

-- The memory after the name has been cleared still holds the string.
CStr-kmemset :
    (m : Mem) (p dest num : ℕ) (s : List ℕ)
    → CStr m p s
    → (dest + num ≤ p) ⊎ (p + length s < dest)
    → CStr (kmemset m dest 0 num) p s
CStr-kmemset m p dest num s h apart =
    CStr-agree m (kmemset m dest 0 num) p s (λ a lo hi. kmemset_lem m dest 0 num a ∙ ground arith) h

module _ (v : Driver) (drive fuel : ℕ) (m : Mem) (name file_metadata : ℕ) (s : List ℕ) (d : v.Disk)
    (named : CStr m name s) (enough : length s < fuel)
    (apart : (file_metadata + name_size ≤ name) ⊎ (name + length s < file_metadata)) where
  -- The two writes are tried, with the name as the copy has left it.
  pub create_file-found :
      (n k : ℕ)
      → search_allocation_map v drive d ≡ found n
      → search_file_map v drive d ≡ found k
      → (after : Mem) × Copied
          (kmemset m file_metadata 0 name_size)
          file_metadata
          (take 251 s)
          after
        × (create_file v drive fuel m name file_metadata d
            ≡ some (
              ok,
              (write_file_metadata v drive k
                  (bytes_at after file_metadata name_size ++ le32 n)
                  (mark_chunk_as_used v drive n d).1).1,
            ))
  unfolding create_file write_file_metadata
  create_file-found n k chunk slot =
      let cleared : Mem = kmemset m file_metadata 0 name_size in
      let (after, copied, rest, fits) =
        kstrncpy-Copied fuel cleared file_metadata name name_size s
          (CStr-kmemset m name file_metadata name_size s named apart) enough (omega arith)
          (omega arith) (ground arith) in
      (after, rest, rw (chunk, slot, copied, create_file) refl)

  -- sknyCreateFile, where the name is a string away from the buffer, and both searches find a place:
  -- it returns SKNY_STATUS_OK, whatever the two writes report. Where both do succeed, the bit of the
  -- chunk that was found is set in the allocation map and every other bit of it is as it was.
  pub create_file-marks :
      (n k : ℕ)
      → search_allocation_map v drive d ≡ found n
      → search_file_map v drive d ≡ found k
      → (bytes : List ℕ) × (let marked = mark_chunk_as_used v drive n d in
          let written = write_file_metadata v drive k bytes marked.1 in
          (create_file v drive fuel m name file_metadata d ≡ some (ok, written.1))
          × (marked.0 ≡ ok
              → written.0 ≡ ok
              → (j : ℕ) → j < chunks_in_allocation_map * bits_per_chunk
              → clear_bit v drive written.1 j ≡ (if j == n then false else clear_bit v drive d j)))
  create_file-marks n k chunk slot =
      let (after, copied, e) = create_file-found n k chunk slot in
      let bytes : List ℕ = bytes_at after file_metadata name_size ++ le32 n in
      let d1 = (mark_chunk_as_used v drive n d).1 in
      (
        bytes,
        (
          e,
          λ marked written j below.
              ap (λ b. is_clear b (j % 8))
                (metadata-before v drive k bytes d1 written (j / 8) (omega arith))
              ∙ mark_chunk_as_used_lem v drive d n marked j,
        ),
      )
