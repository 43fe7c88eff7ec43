-- ===== src/Sknyfs/Search.antt =====
-- searchAllocationMap: the chunk that it finds, and what it says when it finds none.
use palley_os.Prelude.{
  ℕ, zero, suc, ◌+◌, ◌*◌, ◌/◌, ◌%◌, ◌≤◌, ◌<◌, ◌≡◌, ◌≢◌, ◌⊎◌, ==_ne, refl, ap, inl, inr, Bool, true,
  false, Option, none, some, ◌∷◌, arith, ◌==◌, if◌then◌else◌, Bool-cases, ==_iff,
}
use palley_os.Prelude.Memory.{Mem}
use palley_os.Sknyfs.{
  Driver, filesystem_full, read_failure, Lookup, found, failed, find_bit, find_byte, bytes_at,
  read_chunk, search_allocation_map_loop, search_allocation_map, chunk_size, bits_per_chunk,
  chunks_in_allocation_map,
}
use palley_os.Sknyfs.Bits.{
  AllSet, FirstClear, FirstClear-after, FirstClear-longer, FirstClear-move, shift, clear_in,
  byte-FirstClear,
}

find_byte-FirstClear :
    (f : ℕ → ℕ) (len j hi : ℕ)
    → j + len ≡ hi
    → FirstClear (clear_in f) (j * 8) (hi * 8) (find_byte (bytes_at f j len) j)
unfolding find_byte bytes_at
find_byte-FirstClear f zero j hi e = λ n above below. absurd (omega arith)
find_byte-FirstClear f (suc len) j hi e =
    go (f j == 0xff) (find_bit 8 0 (f j)) (find_byte (bytes_at f (j + 1) len) (j + 1))
      (rw (low, high) at (byte-FirstClear f j))
      (find_byte-FirstClear f len (j + 1) hi (omega arith))
  where
    low : j * 8 + 0 ≡ j * 8
    low = omega arith

    high : j * 8 + 8 ≡ (j + 1) * 8
    high = omega arith

    go :
        (full : Bool) (bit rest : Option ℕ)
        → FirstClear (clear_in f) (j * 8) ((j + 1) * 8) (if full then none else shift (j * 8) bit)
        → FirstClear (clear_in f) ((j + 1) * 8) (hi * 8) rest
        → FirstClear
            (clear_in f)
            (j * 8)
            (hi * 8)
            (if full then rest else elim bit [ none ↦ rest | some b ↦ some (j * 8 + b) ])
    go true bit rest here later =
        FirstClear-after (clear_in f) (j * 8) ((j + 1) * 8) (hi * 8) rest (omega arith) here later
    go false none rest here later =
        FirstClear-after (clear_in f) (j * 8) ((j + 1) * 8) (hi * 8) rest (omega arith) here later
    go false (some b) rest here later =
        FirstClear-longer (clear_in f) (j * 8) ((j + 1) * 8) (hi * 8) (j * 8 + b) (omega arith) here

bytes_at-shift : (m : Mem) (p j len : ℕ) → bytes_at m (p + j) len ≡ bytes_at (λ a. m (p + a)) j len
unfolding bytes_at
bytes_at-shift m p j zero = refl
bytes_at-shift m p j (suc len) =
    let e : p + j + 1 ≡ p + (j + 1) = omega arith in
    ap (◌∷◌ (m (p + j))) (rw e (bytes_at-shift m p (j + 1) len))

-- The map's bits, as the disk holds them.
abbrev pub clear_bit : (v : Driver) → ℕ → v.Disk → ℕ → Bool
clear_bit v drive d = clear_in (v.content d drive)

-- A chunk of the map.
chunk-FirstClear :
    (m : Mem) (i : ℕ)
    → FirstClear
        (clear_in m)
        (i * bits_per_chunk + 0)
        (i * bits_per_chunk + bits_per_chunk)
        (shift (i * bits_per_chunk) (find_byte (bytes_at m (i * chunk_size) chunk_size) 0))
chunk-FirstClear m i =
    let p = i * chunk_size in
    let f : ℕ → ℕ = λ a. m (p + a) in
    let start : p + 0 ≡ p = omega arith in
    let bytes : bytes_at m p chunk_size ≡ bytes_at f 0 chunk_size =
      rw start at (bytes_at-shift m p 0 chunk_size) in
    rw bytes (
      FirstClear-move (clear_in f) (clear_in m) (i * bits_per_chunk) 0 bits_per_chunk
        (find_byte (bytes_at f 0 chunk_size) 0)
        (λ n above below.
          let q : (i * bits_per_chunk + n) / 8 ≡ p + n / 8 = omega arith in
          let r : (i * bits_per_chunk + n) % 8 ≡ n % 8 = omega arith in rw (q, r) refl)
        (find_byte-FirstClear f chunk_size 0 chunk_size refl))

-- The driver reports an error for a chunk of the map from `i` on.
abbrev pub ReadError : (v : Driver) → ℕ → v.Disk → ℕ → Type 0
ReadError v drive d i =
    (j : ℕ) × (i ≤ j)
    × (j < chunks_in_allocation_map)
    × ((read_chunk v drive (j * chunk_size) d).0 ≢ 0)

-- What an answer says of the map's bits from those of chunk `i` on.
abbrev pub Finds : (v : Driver) → ℕ → v.Disk → ℕ → Lookup → Type 0
Finds v drive d i (found n) =
    FirstClear (clear_bit v drive d) (i * bits_per_chunk)
      (chunks_in_allocation_map * bits_per_chunk) (some n)
Finds v drive d i (failed s) =
    ((s ≡ filesystem_full)
      × AllSet (clear_bit v drive d) (i * bits_per_chunk)
          (chunks_in_allocation_map * bits_per_chunk))
    ⊎ ((s ≡ read_failure) × ReadError v drive d i)

module _ (v : Driver) (drive : ℕ) (d : v.Disk) where
  loop-step :
      (left i : ℕ)
      → (read_chunk v drive (i * chunk_size) d).0 ≡ 0
      → (here : Option ℕ)
      → find_byte (bytes_at (v.content d drive) (i * chunk_size) chunk_size) 0 ≡ here
      → search_allocation_map_loop v drive d (suc left) i ≡ elim here [
        | none ↦ search_allocation_map_loop v drive d left (i + 1)
        | some offset ↦ found (i * bits_per_chunk + offset)
      ]
  unfolding search_allocation_map_loop
  loop-step left i fine here e = rw (v.read_ok drive 2 (i * chunk_size) d fine, e, fine) refl

  loop-error :
      (left i : ℕ)
      → (read_chunk v drive (i * chunk_size) d).0 ≢ 0
      → search_allocation_map_loop v drive d (suc left) i ≡ failed read_failure
  unfolding search_allocation_map_loop
  loop-error left i bad = rw (==_ne _ 0 bad) refl

  Finds-after :
      (i : ℕ) (r : Lookup)
      → AllSet (clear_bit v drive d) (i * bits_per_chunk) ((i + 1) * bits_per_chunk)
      → Finds v drive d (i + 1) r
      → Finds v drive d i r
  Finds-after i (found n) s f =
      FirstClear-after (clear_bit v drive d) (i * bits_per_chunk) ((i + 1) * bits_per_chunk)
        (chunks_in_allocation_map * bits_per_chunk) (some n) (omega arith) s f
  Finds-after i (failed e) s (inl f) = inl (
    f.0,
    FirstClear-after (clear_bit v drive d) (i * bits_per_chunk) ((i + 1) * bits_per_chunk)
        (chunks_in_allocation_map * bits_per_chunk) none (omega arith) s f.1,
  )
  Finds-after i (failed e) s (inr f) = inr (f.0, (f.1.0, omega (arith, f.1.1), f.1.2, f.1.3))

  chunk_bits :
      (i : ℕ) (here : Option ℕ)
      → find_byte (bytes_at (v.content d drive) (i * chunk_size) chunk_size) 0 ≡ here
      → FirstClear
          (clear_bit v drive d)
          (i * bits_per_chunk)
          ((i + 1) * bits_per_chunk)
          (shift (i * bits_per_chunk) here)
  chunk_bits i here e =
      let low : i * bits_per_chunk + 0 ≡ i * bits_per_chunk = omega arith in
      let high : i * bits_per_chunk + bits_per_chunk ≡ (i + 1) * bits_per_chunk = omega arith in
      rw (low, high, e) at (chunk-FirstClear (v.content d drive) i)

  loop-Finds :
      (left i : ℕ)
      → i + left ≡ chunks_in_allocation_map
      → Finds v drive d i (search_allocation_map_loop v drive d left i)
  loop-Finds zero i e =
      unfold search_allocation_map_loop in inl (refl, λ n above below. absurd (omega arith))
  loop-Finds (suc left) i e = elim (Bool-cases ((read_chunk v drive (i * chunk_size) d).0 == 0)) [
    | inl fine ↦
        go (find_byte (bytes_at (v.content d drive) (i * chunk_size) chunk_size) 0) refl
          ((==_iff _ 0).0 fine) (loop-Finds left (i + 1) (omega arith))
    | inr bad ↦
        let failing : (read_chunk v drive (i * chunk_size) d).0 ≢ 0 = ground arith in
        rw (loop-error left i failing) (inr (refl, (i, omega arith, omega arith, failing)))
  ]
    where
      go :
          (here : Option ℕ)
          → find_byte (bytes_at (v.content d drive) (i * chunk_size) chunk_size) 0 ≡ here
          → (read_chunk v drive (i * chunk_size) d).0 ≡ 0
          → Finds v drive d (i + 1) (search_allocation_map_loop v drive d left (i + 1))
          → Finds v drive d i (search_allocation_map_loop v drive d (suc left) i)
      go none h fine rest =
          rw (loop-step left i fine none h) (Finds-after i _ (chunk_bits i none h) rest)
      go (some offset) h fine rest = rw (loop-step left i fine (some offset) h) (
          FirstClear-longer (clear_bit v drive d) (i * bits_per_chunk) ((i + 1) * bits_per_chunk)
            (chunks_in_allocation_map * bits_per_chunk) (i * bits_per_chunk + offset) (omega arith)
            (chunk_bits i (some offset) h))

  -- searchAllocationMap: a chunk that it finds has a clear bit in the allocation map, and every
  -- chunk with a smaller number has its bit set; where it reports a full file system every bit of
  -- the map is set; its only other answer is a read failure, and then the driver reports an error
  -- for a chunk of the map.
  pub search_allocation_map-Finds : Finds v drive d 0 (search_allocation_map v drive d)
  unfolding search_allocation_map
  search_allocation_map-Finds = loop-Finds chunks_in_allocation_map 0 refl
