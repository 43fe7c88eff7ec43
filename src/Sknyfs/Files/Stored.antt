-- ===== src/Sknyfs/Files/Stored.antt =====
-- What writeFileMetadata leaves on the disk.
use palley_os.Prelude.{
  ℕ, zero, suc, ◌+◌, ◌-◌, ◌*◌, ◌/◌, ◌%◌, ◌≤◌, ◌<◌, ◌≡◌, refl, ap, ◌∙◌, ◌⊎◌, inl, inr, ◌&&◌, true,
  List, [], ◌∷◌, arith, ltb, leb, Bool-cases, length, get_or, set, length-set, get_or-set_self,
  get_or-set_ne,
}
use palley_os.Prelude.Memory.{Mem}
use palley_os.Sknyfs.{Driver, ok, bytes_at, chunk_size, file_map_begin, metadata_size}
use palley_os.Sknyfs.Mark.{length-bytes_at, get_or-bytes_at}
use palley_os.Sknyfs.Files.{set_bytes, write_file_metadata}
use palley_os.Sknyfs.Files.Create.{metadata-content}

get_or-set_bytes_outside :
    (files : List ℕ) (p : ℕ) (bs : List ℕ) (q : ℕ)
    → (q < p) ⊎ (p + length bs ≤ q)
    → get_or (set_bytes files p bs) q 0 ≡ get_or files q 0
unfolding set_bytes
get_or-set_bytes_outside files p [] q out = refl
get_or-set_bytes_outside files p (b ∷ bs) q out =
    get_or-set_bytes_outside (set files p b) (p + 1) bs q (ground arith)
    ∙ get_or-set_ne files p q b 0 (ground arith)

get_or-set_bytes :
    (files : List ℕ) (p : ℕ) (bs : List ℕ) (i : ℕ)
    → p + length bs ≤ length files
    → i < length bs
    → get_or (set_bytes files p bs) (p + i) 0 ≡ get_or bs i 0
unfolding set_bytes
get_or-set_bytes files p [] i fits h = absurd (omega arith)
get_or-set_bytes files p (b ∷ bs) zero fits h =
    get_or-set_bytes_outside (set files p b) (p + 1) bs (p + 0) (inl (omega arith))
    ∙ ap (λ q. get_or (set files p b) q 0) p0
    ∙ get_or-set_self files p b 0 (omega arith)
  where
    p0 : p + 0 ≡ p
    p0 = omega arith
get_or-set_bytes files p (b ∷ bs) (suc i) fits h =
    let next : p + suc i ≡ (p + 1) + i = omega arith in
    rw next (
      get_or-set_bytes (set files p b) (p + 1) bs i (omega (arith, length-set files p b))
        (omega arith))

pub bytes_at-agree :
    (f g : Mem) (p q n : ℕ)
    → ((i : ℕ) → i < n → f (p + i) ≡ g (q + i))
    → bytes_at f p n ≡ bytes_at g q n
unfolding bytes_at
bytes_at-agree f g p q zero same = refl
bytes_at-agree f g p q (suc n) same =
    let head : f p ≡ g q = ground (arith, same 0 (omega arith), p0, q0) in
    let tail : bytes_at f (p + 1) n ≡ bytes_at g (q + 1) n =
      bytes_at-agree f g (p + 1) (q + 1) n
        (λ i h. ap f (omega arith) ∙ same (i + 1) (omega arith) ∙ ap g (omega arith)) in
    rw (head, tail) refl
  where
    p0 : p + 0 ≡ p
    p0 = omega arith

    q0 : q + 0 ≡ q
    q0 = omega arith

-- The bytes of a list, as a memory holds them.
bytes_at-list :
    (f : Mem) (p : ℕ) (bs : List ℕ)
    → ((i : ℕ) → i < length bs → f (p + i) ≡ get_or bs i 0)
    → bytes_at f p (length bs) ≡ bs
unfolding bytes_at
bytes_at-list f p [] same = refl
bytes_at-list f p (b ∷ bs) same =
    let head : f p ≡ b = ground (arith, same 0 (omega arith), p0) in
    let tail : bytes_at f (p + 1) (length bs) ≡ bs =
      bytes_at-list f (p + 1) bs (λ i h. ap f (omega arith) ∙ same (suc i) (omega arith)) in
    rw (head, tail) refl
  where
    p0 : p + 0 ≡ p
    p0 = omega arith

module _ (v : Driver) (drive k : ℕ) (bs : List ℕ) (d : v.Disk) (long : length bs ≡ metadata_size)
    (fine : (write_file_metadata v drive k bs d).0 ≡ ok) where
  abbrev after : v.Disk
  after = (write_file_metadata v drive k bs d).1

  -- Outside the entry the disk is as it was.
  pub metadata-outside :
      (a : ℕ)
      → (a < file_map_begin + k * metadata_size) ⊎ (file_map_begin + (k + 1) * metadata_size ≤ a)
      → v.content after drive a ≡ v.content d drive a
  metadata-outside a out =
      let l : ℕ = file_map_begin + k / 4 * 1024 in
      let held = bytes_at (v.content d drive) l chunk_size in
      elim (Bool-cases (leb l a && ltb a (l + 2 * 512))) [
        | inl inside ↦
            let apart : (a - l < k % 4 * 256) ⊎ (k % 4 * 256 + length bs ≤ a - l) =
              ground (arith, inside) in
            let back : l + (a - l) ≡ a = ground (arith, inside) in
            metadata-content v drive k bs d fine a
            ∙ rw inside (
                get_or-set_bytes_outside held (k % 4 * 256) bs (a - l) apart
                ∙ get_or-bytes_at (v.content d drive) l chunk_size (a - l) (ground (arith, inside))
                ∙ ap (v.content d drive) back)
        | inr outside ↦ metadata-content v drive k bs d fine a ∙ rw outside refl
      ]

  -- The entry holds what was written.
  pub metadata-entry :
      bytes_at (v.content after drive) (file_map_begin + k * metadata_size) metadata_size ≡ bs
  metadata-entry =
      let l : ℕ = file_map_begin + k / 4 * 1024 in
      let held = bytes_at (v.content d drive) l chunk_size in
      rw long at (
        bytes_at-list (v.content after drive) (file_map_begin + k * metadata_size) bs (λ i h.
          let a : ℕ = file_map_begin + k * metadata_size + i in
          let inside : (leb l a && ltb a (l + 2 * 512)) ≡ true = ground arith in
          let place : a - l ≡ k % 4 * 256 + i = omega arith in
          metadata-content v drive k bs d fine a
          ∙ rw inside (
              ap (λ q. get_or (set_bytes held (k % 4 * 256) bs) q 0) place
              ∙ get_or-set_bytes held (k % 4 * 256) bs i
                  (omega (arith, length-bytes_at (v.content d drive) l chunk_size)) h)))
