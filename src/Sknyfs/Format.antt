-- ===== src/Sknyfs/Format.antt =====
-- clearChunk and sknyCreateFilesystem: what formatting leaves on the disk.
use palley_os.Prelude.{
  ℕ, zero, suc, ◌+◌, ◌-◌, ◌*◌, ◌≤◌, ◌≡◌, refl, sym, ap, ◌∙◌, ◌&&◌, List, arith, ◌==◌, ltb, leb,
  if◌then◌else◌, length, get_or, replicate, length-replicate,
}
use palley_os.Sknyfs.{
  Driver, Status, ok, write_failure, read_failure, filesystem_full, file_not_found, sector_size,
  chunk_size, sectors_per_chunk, chunks_in_allocation_map, chunks_in_file_map,
}

-- The buffer of clearChunk.
unfoldable pub sector_of : ℕ → List ℕ
sector_of byte = replicate sector_size byte

length-sector_of : (byte : ℕ) → length (sector_of byte) ≡ 1 * sector_size
unfolding sector_of
length-sector_of byte = length-replicate sector_size byte

get_or-zeros : (n i : ℕ) → get_or {A = ℕ} (replicate n 0) i 0 ≡ 0
get_or-zeros zero i = refl
get_or-zeros (suc n) zero = refl
get_or-zeros (suc n) (suc i) = get_or-zeros n i

get_or-sector_of : (i : ℕ) → get_or (sector_of 0) i 0 ≡ 0
unfolding sector_of
get_or-sector_of i = get_or-zeros sector_size i

module _ (v : Driver) (drive : ℕ) where
  -- The loop over the sectors of a chunk from `i` on, with the error of the last write.
  unfoldable pub clear_chunk_loop : ℕ → ℕ → ℕ → ℕ → v.Disk → ℕ × v.Disk
  clear_chunk_loop chunk byte zero i d = (0, d)
  clear_chunk_loop chunk byte (suc left) i d =
      let (err, d') = v.write drive 1 (chunk * chunk_size + i * sector_size) (sector_of byte) d in
      let rest = clear_chunk_loop chunk byte left (i + 1) d' in if err == 0 then rest else (err, d')

  unfoldable pub clear_chunk : ℕ → ℕ → v.Disk → ℕ × v.Disk
  unfolding clear_chunk_loop
  clear_chunk chunk byte d = clear_chunk_loop chunk byte sectors_per_chunk 0 d

  -- The loops over the chunks of the two maps: `left` chunks from `i` on.
  unfoldable pub clear_chunks : ℕ → ℕ → v.Disk → Status × v.Disk
  unfolding clear_chunk
  clear_chunks zero i d = (ok, d)
  clear_chunks (suc left) i d =
      let (write_err, d') = clear_chunk i 0 d in
      let rest = clear_chunks left (i + 1) d' in
      if write_err == 0 then rest else (write_failure, d')

  -- An early return on a status other than SKNY_STATUS_OK.
  unfoldable pub and_then : Status × v.Disk → (v.Disk → Status × v.Disk) → Status × v.Disk
  and_then (ok, d) next = next d
  and_then (status, d) next = (status, d)

  unfoldable pub create_filesystem : v.Disk → Status × v.Disk
  unfolding clear_chunks and_then
  create_filesystem d =
      and_then (clear_chunks chunks_in_allocation_map 0 d)
        (clear_chunks chunks_in_file_map chunks_in_allocation_map)

  -- The bytes from `lo` up to `hi` are zero, and the others are as they were.
  abbrev Cleared : ℕ → ℕ → v.Disk → v.Disk → Type 0
  Cleared lo hi d d' =
      (a : ℕ) → v.content d' drive a ≡ (if leb lo a && ltb a hi then 0 else v.content d drive a)

  sector-Cleared :
      (loc : ℕ) (d : v.Disk) (buffer : List ℕ)
      → length buffer ≡ 1 * sector_size
      → ((i : ℕ) → get_or buffer i 0 ≡ 0)
      → (v.write drive 1 loc buffer d).0 ≡ 0
      → Cleared loc (loc + 1 * sector_size) d (v.write drive 1 loc buffer d).1
  sector-Cleared loc d buffer long zeros fine a =
      v.write_ok drive 1 loc buffer d fine long a ∙ ground (arith, zeros (a - loc))

  Cleared-trans :
      (lo mid hi : ℕ) (d e f : v.Disk)
      → lo ≤ mid
      → mid ≤ hi
      → Cleared lo mid d e
      → Cleared mid hi e f
      → Cleared lo hi d f
  Cleared-trans lo mid hi d e f le le' c c' a = ground (arith, c a, c' a)

  sector_step :
      (chunk left i : ℕ) (d : v.Disk)
      → (clear_chunk_loop chunk 0 (suc left) i d).0 ≡ 0
      → let w = v.write drive 1 (chunk * chunk_size + i * sector_size) (sector_of 0) d in
        (w.0 ≡ 0)
        × (clear_chunk_loop chunk 0 (suc left) i d ≡ clear_chunk_loop chunk 0 left (i + 1) w.1)
  unfolding clear_chunk_loop
  sector_step chunk left i d h = (ground arith, ground arith)

  clear_chunk_loop-Cleared :
      (left chunk i : ℕ) (d : v.Disk)
      → (clear_chunk_loop chunk 0 left i d).0 ≡ 0
      → Cleared
          (chunk * chunk_size + i * sector_size)
          (chunk * chunk_size + (i + left) * sector_size)
          d
          (clear_chunk_loop chunk 0 left i d).1
  clear_chunk_loop-Cleared zero chunk i d h = λ a. unfold clear_chunk_loop in ground arith
  clear_chunk_loop-Cleared (suc left) chunk i d h =
      let loc = chunk * chunk_size + i * sector_size in
      let w = v.write drive 1 loc (sector_of 0) d in
      let (fine, step) = sector_step chunk left i d h in
      let rest =
        clear_chunk_loop-Cleared left chunk (i + 1) w.1
          (sym (ap (λ (r : ℕ × v.Disk). r.0) step) ∙ h) in
      let next : loc + 1 * sector_size ≡ chunk * chunk_size + (i + 1) * sector_size = omega arith in
      let end : chunk * chunk_size + (i + 1 + left) * sector_size
          ≡ chunk * chunk_size + (i + suc left) * sector_size =
        omega arith in
      Cleared-trans loc (loc + 1 * sector_size) (chunk * chunk_size + (i + suc left) * sector_size)
        d w.1 (clear_chunk_loop chunk 0 (suc left) i d).1 (omega arith) (omega arith)
        (sector-Cleared loc d (sector_of 0) (length-sector_of 0) get_or-sector_of fine)
        (rw step (rw next (rw (← end) rest)))

  Cleared-bounds :
      (lo lo' hi hi' : ℕ) (d e : v.Disk)
      → lo ≡ lo'
      → hi ≡ hi'
      → Cleared lo hi d e
      → Cleared lo' hi' d e
  Cleared-bounds lo lo' hi hi' d e p q c a = ground (arith, c a)

  clear_chunk-Cleared :
      (chunk : ℕ) (d : v.Disk)
      → (clear_chunk chunk 0 d).0 ≡ 0
      → Cleared (chunk * chunk_size) ((chunk + 1) * chunk_size) d (clear_chunk chunk 0 d).1
  unfolding clear_chunk
  clear_chunk-Cleared chunk d h =
      Cleared-bounds (chunk * chunk_size + 0 * sector_size) (chunk * chunk_size)
        (chunk * chunk_size + (0 + 2) * sector_size) ((chunk + 1) * chunk_size) d
        (clear_chunk_loop chunk 0 2 0 d).1 (omega arith) (omega arith)
        (clear_chunk_loop-Cleared 2 chunk 0 d h)

  chunk_step :
      (left i : ℕ) (d : v.Disk)
      → (clear_chunks (suc left) i d).0 ≡ ok
      → ((clear_chunk i 0 d).0 ≡ 0)
        × (clear_chunks (suc left) i d ≡ clear_chunks left (i + 1) (clear_chunk i 0 d).1)
  unfolding clear_chunks
  chunk_step left i d h = (ground arith, ground arith)

  clear_chunks-Cleared :
      (left i : ℕ) (d : v.Disk)
      → (clear_chunks left i d).0 ≡ ok
      → Cleared (i * chunk_size) ((i + left) * chunk_size) d (clear_chunks left i d).1
  clear_chunks-Cleared zero i d h = λ a. unfold clear_chunks in ground arith
  clear_chunks-Cleared (suc left) i d h =
      let (fine, step) = chunk_step left i d h in
      let e = (clear_chunk i 0 d).1 in
      let here = clear_chunk-Cleared i d fine in
      let rest =
        clear_chunks-Cleared left (i + 1) e (sym (ap (λ (r : Status × v.Disk). r.0) step) ∙ h) in
      let end : (i + 1 + left) * chunk_size ≡ (i + suc left) * chunk_size = omega arith in
      Cleared-trans (i * chunk_size) ((i + 1) * chunk_size) ((i + suc left) * chunk_size) d e
        (clear_chunks (suc left) i d).1 (omega arith) (omega arith) here (rw step (rw (← end) rest))

  and_then-ok :
      (r : Status × v.Disk) (next : v.Disk → Status × v.Disk)
      → (and_then r next).0 ≡ ok
      → (r.0 ≡ ok) × ((next r.1).0 ≡ ok) × ((and_then r next).1 ≡ (next r.1).1)
  unfolding and_then
  and_then-ok (ok, d) next h = (refl, h, refl)
  and_then-ok (write_failure, d) next h = cc
  and_then-ok (read_failure, d) next h = cc
  and_then-ok (filesystem_full, d) next h = cc
  and_then-ok (file_not_found, d) next h = cc

  -- sknyCreateFilesystem: where it succeeds, the 32 chunks of the allocation map and the file map
  -- are zero on the disk, so that no chunk is taken and no file is named, and every other byte of
  -- the disk is as it was.
  pub create_filesystem-Cleared :
      (d : v.Disk)
      → (create_filesystem d).0 ≡ ok
      → (a : ℕ)
      → v.content (create_filesystem d).1 drive a
        ≡ (if ltb a (32 * chunk_size) then 0 else v.content d drive a)
  unfolding create_filesystem
  create_filesystem-Cleared d h a =
      let first = clear_chunks chunks_in_allocation_map 0 d in
      let second = clear_chunks chunks_in_file_map chunks_in_allocation_map in
      let (fine, fine', after) = and_then-ok first second h in
      ap (λ e. v.content e drive a) after
      ∙ clear_chunks-Cleared chunks_in_file_map chunks_in_allocation_map first.1 fine' a
      ∙ both (v.content first.1 drive a) a
          (clear_chunks-Cleared chunks_in_allocation_map 0 d fine a)
    where
      both :
          (x a : ℕ)
          → x ≡ (if leb (0 * 1024) a && ltb a (16 * 1024) then 0 else v.content d drive a)
          → (if leb (16 * 1024) a && ltb a (32 * 1024) then 0 else x)
            ≡ (if ltb a (32 * 1024) then 0 else v.content d drive a)
      both x a e = ground arith
