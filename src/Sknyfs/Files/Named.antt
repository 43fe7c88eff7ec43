-- ===== src/Sknyfs/Files/Named.antt =====
-- searchForFile takes an empty entry for any name.
use palley_os.Prelude.{ℕ, suc, ◌+◌, ◌*◌, ◌<◌, ◌≡◌, refl, ◌∙◌, some, List, [], ◌∷◌, arith, get_or}
use palley_os.Prelude.Memory.{Mem, store}
use palley_os.Kstdlib.{kstrcmp}
use palley_os.Sknyfs.{
  Driver, found, bytes_at, read_chunk, file_map_begin, metadata_size, files_per_chunk, chunk_size,
}
use palley_os.Sknyfs.Mark.{get_or-bytes_at}
use palley_os.Sknyfs.Files.{
  entry, load_bytes, find_named, at, search_for_file, search_for_file_loop,
}

kstrcmp-empty : (fuel : ℕ) (m : Mem) (p q : ℕ) → m q ≡ 0 → kstrcmp (suc fuel) m p q ≡ some 0
unfolding kstrcmp
kstrcmp-empty fuel m p q e = ground arith

pub load_bytes-before : (m : Mem) (p a : ℕ) (bs : List ℕ) → a < p → load_bytes m p bs a ≡ m a
unfolding load_bytes
load_bytes-before m p a [] h = refl
load_bytes-before m p a (b ∷ bs) h =
    load_bytes-before (store m p b) (p + 1) a bs (omega arith) ∙ ground arith

pub load_bytes-first : (m : Mem) (p b : ℕ) (bs : List ℕ) → load_bytes m p (b ∷ bs) p ≡ b
unfolding load_bytes
load_bytes-first m p b bs =
    load_bytes-before (store m p b) (p + 1) p bs (omega arith) ∙ ground arith

entry-cons :
    (files : List ℕ) (k : ℕ)
    → (rest : List ℕ) × (entry files k ≡ get_or files (k * metadata_size) 0 ∷ rest)
unfolding entry bytes_at
entry-cons files k = (bytes_at (λ a. get_or files a 0) (k * metadata_size + 1) 255, refl)

find_named-empty :
    (fuel left : ℕ) (m : Mem) (name file : ℕ) (files : List ℕ)
    → get_or files 0 0 ≡ 0
    → find_named (suc fuel) m name file (suc left) 0 files ≡ at 0
unfolding find_named
find_named-empty fuel left m name file files e =
    let (rest, cons) = entry-cons files 0 in
    let nul : load_bytes m file (entry files 0) file ≡ 0 =
      rw cons (load_bytes-first m file (get_or files 0 0) rest ∙ e) in
    rw (kstrcmp-empty fuel (load_bytes m file (entry files 0)) name file nul, find_named) refl

module _ (v : Driver) (drive fuel : ℕ) (m : Mem) (name file : ℕ) (d : v.Disk) (left : ℕ) where
  loop-at :
      (k : ℕ) (files : List ℕ)
      → (read_chunk v drive file_map_begin d).0 ≡ 0
      → (read_chunk v drive file_map_begin d).1 ≡ files
      → find_named fuel m name file files_per_chunk 0 files ≡ at k
      → search_for_file_loop v drive fuel m name file d (suc left) 0 ≡ some (found (0 + k))
  unfolding search_for_file_loop
  loop-at k files fine same here = rw (same, here, fine) refl

-- searchForFile: where the first entry of the file map has an empty name, that is no file, and can
-- be read, the search for any name whatever reports that it has found the file there.
pub search_for_file-empty :
    (v : Driver) (drive fuel : ℕ) (m : Mem) (name file : ℕ) (d : v.Disk)
    → (read_chunk v drive file_map_begin d).0 ≡ 0
    → v.content d drive file_map_begin ≡ 0
    → search_for_file v drive (suc fuel) m name file d ≡ some (found 0)
unfolding search_for_file
search_for_file-empty v drive fuel m name file d fine empty =
    let files = bytes_at (v.content d drive) file_map_begin chunk_size in
    let first : get_or files 0 0 ≡ 0 =
      get_or-bytes_at (v.content d drive) file_map_begin chunk_size 0 (omega arith) ∙ empty in
    loop-at v drive (suc fuel) m name file d 15 0 files fine
      (v.read_ok drive 2 file_map_begin d fine) (find_named-empty fuel 3 m name file files first)
