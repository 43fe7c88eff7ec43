-- ===== src/Sknyfs/Files/Finding.antt =====
-- What the two searches of the file map find.
use palley_os.Prelude.{
  ℕ, zero, suc, ◌+◌, ◌*◌, ◌/◌, ◌%◌, ◌≤◌, ◌<◌, ◌≡◌, ◌≢◌, refl, ap, ◌∙◌, Bool, true, false, Option,
  none, some, List, arith, ◌==◌, if◌then◌else◌, ==_ne, get_or,
}
use palley_os.Prelude.Memory.{Mem}
use palley_os.Kstdlib.{kstrcmp}
use palley_os.Sknyfs.{
  Driver, Lookup, found, failed, filesystem_full, read_failure, bytes_at, read_chunk, chunk_size,
  file_map_begin, files_per_chunk, metadata_size, chunks_in_file_map,
}
use palley_os.Sknyfs.Mark.{get_or-bytes_at}
use palley_os.Sknyfs.Files.{
  entry, load_bytes, find_empty, find_named, at, nowhere, search_file_map_loop, search_for_file,
  search_for_file_loop,
}
use palley_os.Sknyfs.Files.Stored.{bytes_at-agree}

-- The entry `k` of the file map, as the disk holds it.
abbrev pub file_entry : (v : Driver) → ℕ → v.Disk → ℕ → List ℕ
file_entry v drive d k =
    bytes_at (v.content d drive) (file_map_begin + k * metadata_size) metadata_size

-- kstrcmp ends, and does not take this entry for the name.
abbrev pub OtherName : ℕ → Mem → ℕ → ℕ → List ℕ → Type 0
OtherName fuel m name file bytes =
    (order : ℕ) × (kstrcmp fuel (load_bytes m file bytes) name file ≡ some order) × (order ≢ 0)

module _ (fuel : ℕ) (m : Mem) (name file : ℕ) (files : List ℕ) where
  find_named-nowhere :
      (left k : ℕ)
      → ((e : ℕ) → k ≤ e → e < k + left → OtherName fuel m name file (entry files e))
      → find_named fuel m name file left k files ≡ nowhere
  unfolding find_named
  find_named-nowhere zero k other = refl
  find_named-nowhere (suc left) k other =
      let (order, e, differs) = other k (omega arith) (omega arith) in
      rw (e, ==_ne order 0 differs, find_named)
        (find_named-nowhere left (k + 1) (λ j lo hi. other j (omega arith) (omega arith)))

  find_named-at :
      (left k g : ℕ)
      → g < left
      → ((e : ℕ) → k ≤ e → e < k + g → OtherName fuel m name file (entry files e))
      → kstrcmp fuel (load_bytes m file (entry files (k + g))) name file ≡ some 0
      → find_named fuel m name file left k files ≡ at (k + g)
  unfolding find_named
  find_named-at zero k g h other same = absurd (omega arith)
  find_named-at (suc left) k zero h other same =
      let k0 : k + 0 ≡ k = omega arith in
      let same_here : kstrcmp fuel (load_bytes m file (entry files k)) name file ≡ some 0 =
        rw k0 at same in
      rw (same_here, k0, find_named) refl
  find_named-at (suc left) k (suc g) h other same =
      let (order, e, differs) = other k (omega arith) (omega arith) in
      let next : k + suc g ≡ (k + 1) + g = omega arith in
      rw (e, ==_ne order 0 differs, find_named)
        (rw next (
          find_named-at left (k + 1) g (omega arith)
            (λ j lo hi. other j (omega arith) (omega arith)) (rw next at same)))

-- The entries of a chunk that has been read.
entry-chunk :
    (f : Mem) (i e : ℕ)
    → e < files_per_chunk
    → entry (bytes_at f (file_map_begin + i * chunk_size) chunk_size) e
      ≡ bytes_at f (file_map_begin + (i * files_per_chunk + e) * metadata_size) metadata_size
unfolding entry
entry-chunk f i e h =
    let p : ℕ = file_map_begin + i * chunk_size in
    bytes_at-agree (λ a. get_or (bytes_at f p chunk_size) a 0) f (e * metadata_size)
      (file_map_begin + (i * files_per_chunk + e) * metadata_size) metadata_size
      (λ j below.
        get_or-bytes_at f p chunk_size (e * metadata_size + j) (omega arith) ∙ ap f (omega arith))

find_empty-lt :
    (left k : ℕ) (files : List ℕ) (j : ℕ) → find_empty left k files ≡ some j → j < k + left
unfolding find_empty
find_empty-lt zero k files j e = ground arith
find_empty-lt (suc left) k files j e = ground (arith, find_empty-lt left (k + 1) files j)

module _ (v : Driver) (drive : ℕ) (d : v.Disk) where
  pub search_file_map-lt :
      (left i k : ℕ)
      → search_file_map_loop v drive d left i ≡ found k
      → k < (i + left) * files_per_chunk
  unfolding search_file_map_loop
  search_file_map-lt zero i k e = absurd (clash e)
    where
      clash : failed filesystem_full ≡ found k → ⊥
      clash h = cc
  search_file_map-lt (suc left) i k e =
      let files = (read_chunk v drive (file_map_begin + i * chunk_size) d).1 in
      go ((read_chunk v drive (file_map_begin + i * chunk_size) d).0 == 0)
        (find_empty files_per_chunk 0 files) (find_empty-lt files_per_chunk 0 files)
        (search_file_map-lt left (i + 1) k) e
    where
      go :
          (fine : Bool) (here : Option ℕ)
          → ((j : ℕ) → here ≡ some j → j < 0 + files_per_chunk)
          → (search_file_map_loop v drive d left (i + 1) ≡ found k
              → k < (i + 1 + left) * files_per_chunk)
          → ◌≡◌ {A = Lookup}
              (if fine
                then elim here [
                  | none ↦ search_file_map_loop v drive d left (i + 1)
                  | some j ↦ found (i * files_per_chunk + j)
                ]
                else failed read_failure)
              (found k)
          → k < (i + suc left) * files_per_chunk
      go true none bound later h = omega (arith, later h)
      go true (some j) bound later h =
          let same : i * files_per_chunk + j ≡ k = cc in omega (arith, bound j refl, same)
      go false here bound later h = absurd (clash h)
        where
          clash : failed read_failure ≡ found k → ⊥
          clash h' = cc

  module _ (fuel : ℕ) (m : Mem) (name file k : ℕ)
      (readable : (i : ℕ)
        → i < chunks_in_file_map
        → (read_chunk v drive (file_map_begin + i * chunk_size) d).0 ≡ 0)
      (below : k < chunks_in_file_map * files_per_chunk)
      (others : (j : ℕ) → j < k → OtherName fuel m name file (file_entry v drive d j))
      (same : kstrcmp fuel (load_bytes m file (file_entry v drive d k)) name file ≡ some 0) where
    chunk-nowhere :
        (i : ℕ)
        → i < k / files_per_chunk
        → find_named fuel m name file files_per_chunk 0
            (bytes_at (v.content d drive) (file_map_begin + i * chunk_size) chunk_size)
          ≡ nowhere
    chunk-nowhere i h =
        find_named-nowhere fuel m name file
          (bytes_at (v.content d drive) (file_map_begin + i * chunk_size) chunk_size)
          files_per_chunk 0
          (λ e lo hi.
            rw (entry-chunk (v.content d drive) i e hi)
              (others (i * files_per_chunk + e) (omega arith)))

    chunk-at :
        find_named fuel m name file files_per_chunk 0 (
          bytes_at
            (v.content d drive)
            (file_map_begin + k / files_per_chunk * chunk_size)
            chunk_size)
        ≡ at (k % files_per_chunk)
    chunk-at =
        let i : ℕ = k / files_per_chunk in
        let place : i * 4 + k % 4 ≡ k = omega arith in
        let start : 0 + k % 4 ≡ k % 4 = omega arith in
        rw start at (
          find_named-at fuel m name file
            (bytes_at (v.content d drive) (file_map_begin + i * chunk_size) chunk_size)
            files_per_chunk 0 (k % files_per_chunk) (omega arith)
            (λ e lo hi.
              rw (entry-chunk (v.content d drive) i e (omega arith))
                (others (i * files_per_chunk + e) (omega arith)))
            (rw
              (start, entry-chunk (v.content d drive) i (k % files_per_chunk) (omega arith), place)
              same))

    loop-found :
        (left g i : ℕ)
        → i + g ≡ k / files_per_chunk
        → g < left
        → search_for_file_loop v drive fuel m name file d left i ≡ some (found k)
    unfolding search_for_file_loop
    loop-found zero g i e h = absurd (omega arith)
    loop-found (suc left) zero i e h =
        let fine = readable i (omega arith) in
        let here : i ≡ k / files_per_chunk = omega arith in
        let place : i * 4 + k % 4 ≡ k = omega arith in
        rw (v.read_ok drive 2 (file_map_begin + i * chunk_size) d fine, fine, here, chunk-at, place)
          refl
    loop-found (suc left) (suc g) i e h =
        let fine = readable i (omega arith) in
        rw
          (
            v.read_ok drive 2 (file_map_begin + i * chunk_size) d fine,
            fine,
            chunk-nowhere i (omega arith),
          )
          (loop-found left g (i + 1) (omega arith) (omega arith))

    pub search_for_file-at : search_for_file v drive fuel m name file d ≡ some (found k)
    unfolding search_for_file
    search_for_file-at =
        loop-found chunks_in_file_map (k / files_per_chunk) 0 (omega arith) (omega arith)
