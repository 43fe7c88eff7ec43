-- ===== src/Sknyfs/Mark.antt =====
-- markChunkAsUsed: the one bit of the allocation map that it changes.
use Prim.Native.Nat.{bit_or}
use palley_os.Prelude.Bits.{is_clear, is_clear-bit_or}
use palley_os.Prelude.{
  ℕ, zero, suc, ◌+◌, ◌-◌, ◌*◌, ◌/◌, ◌%◌, ◌^◌, ◌<◌, ◌≡◌, ◌≢◌, refl, sym, ap, ◌∙◌, inl, inr, false,
  not, ◌&&◌, List, arith, ◌==◌, ltb, leb, if◌then◌else◌, Bool-cases, ==_iff, ==_ne, length, get_or,
  set, length-set, get_or-set_self, get_or-set_ne,
}
use palley_os.Prelude.Memory.{Mem}
use palley_os.Sknyfs.{
  Driver, Status, ok, read_failure, write_failure, bytes_at, read_chunk, write_chunk,
  mark_chunk_as_used, chunk_size, bits_per_chunk,
}
use palley_os.Sknyfs.Search.{clear_bit}

pub length-bytes_at : (m : Mem) (p n : ℕ) → length (bytes_at m p n) ≡ n
unfolding bytes_at
length-bytes_at m p zero = refl
length-bytes_at m p (suc n) = ap suc (length-bytes_at m (p + 1) n)

pub get_or-bytes_at : (m : Mem) (p n i : ℕ) → i < n → get_or (bytes_at m p n) i 0 ≡ m (p + i)
unfolding bytes_at
get_or-bytes_at m p zero i h = absurd (omega arith)
get_or-bytes_at m p (suc n) zero h = ap m (omega arith)
get_or-bytes_at m p (suc n) (suc i) h =
    get_or-bytes_at m (p + 1) n i (omega arith) ∙ ap m (omega arith)

-- A chunk with one byte changed, as the disk holds it.
get_or-changed :
    (m : Mem) (p n i k value : ℕ)
    → i < n
    → k < n
    → get_or (set (bytes_at m p n) i value) k 0 ≡ (if k == i then value else m (p + k))
get_or-changed m p n i k value hi hk = elim (Bool-cases (k == i)) [
  | inl e ↦
      let same : k ≡ i = (==_iff k i).0 e in
      rw e (rw same (get_or-set_self (bytes_at m p n) i value 0 (rw (length-bytes_at m p n) hi)))
  | inr ne ↦
      let differ : i ≢ k = ground arith in
      rw ne (get_or-set_ne (bytes_at m p n) i k value 0 differ ∙ get_or-bytes_at m p n k hk)
]

module _ (v : Driver) (drive : ℕ) (d : v.Disk) (n : ℕ) where
  abbrev location : ℕ
  location = n / bits_per_chunk * chunk_size

  abbrev byte_offset : ℕ
  byte_offset = n % bits_per_chunk / 8

  abbrev marked : ℕ
  marked = bit_or (v.content d drive (n / 8)) (2 ^ (n % bits_per_chunk % 8))

  abbrev changed : List ℕ
  changed = set (bytes_at (v.content d drive) location chunk_size) byte_offset marked

  place : location + byte_offset ≡ n / 8
  place = omega arith

  byte_here :
      get_or (bytes_at (v.content d drive) location chunk_size) byte_offset 0
      ≡ v.content d drive (n / 8)
  byte_here =
      get_or-bytes_at (v.content d drive) location chunk_size byte_offset (omega arith)
      ∙ ap (v.content d drive) place

  -- A read error ends the call, and nothing is written.
  pub mark-read_failure :
      (read_chunk v drive location d).0 ≢ 0 → mark_chunk_as_used v drive n d ≡ (read_failure, d)
  unfolding mark_chunk_as_used
  mark-read_failure bad = rw (==_ne _ 0 bad) refl

  mark-write :
      (read_chunk v drive location d).0 ≡ 0
      → mark_chunk_as_used v drive n d ≡ (
          if not ((write_chunk v drive location changed d).0 == 0)
          then (write_failure, (write_chunk v drive location changed d).1)
          else (ok, (write_chunk v drive location changed d).1))
  unfolding mark_chunk_as_used
  mark-write fine = rw (v.read_ok drive 2 location d fine, byte_here, fine) refl

  -- The two calls of the driver that a success has gone through.
  mark-calls :
      (mark_chunk_as_used v drive n d).0 ≡ ok
      → ((write_chunk v drive location changed d).0 ≡ 0)
        × ((mark_chunk_as_used v drive n d).1 ≡ (write_chunk v drive location changed d).1)
  mark-calls h = elim (Bool-cases ((read_chunk v drive location d).0 == 0)) [
    | inl fine ↦ elim (Bool-cases ((write_chunk v drive location changed d).0 == 0)) [
      | inl written ↦
          let e : mark_chunk_as_used v drive n d
              ≡ (ok, (write_chunk v drive location changed d).1) =
            mark-write ((==_iff _ 0).0 fine) ∙ rw written refl in
          ((==_iff _ 0).0 written, ap (λ (r : Status × v.Disk). r.1) e)
      | inr failed ↦
          let e : mark_chunk_as_used v drive n d
              ≡ (write_failure, (write_chunk v drive location changed d).1) =
            mark-write ((==_iff _ 0).0 fine) ∙ rw failed refl in
          absurd (clash (sym (ap (λ (r : Status × v.Disk). r.0) e) ∙ h))
    ]
    | inr bad ↦
        absurd
          (clash' (sym (ap (λ (r : Status × v.Disk). r.0) (mark-read_failure (ground arith))) ∙ h))
  ]
    where
      clash : write_failure ≡ ok → ⊥
      clash e = cc

      clash' : read_failure ≡ ok → ⊥
      clash' e = cc

  -- The disk's bytes after a success.
  pub mark-content :
      (mark_chunk_as_used v drive n d).0 ≡ ok
      → (a : ℕ)
      → v.content (mark_chunk_as_used v drive n d).1 drive a
        ≡ (if a == n / 8 then marked else v.content d drive a)
  mark-content h a =
      let (fine, after) = mark-calls h in
      let long : length changed ≡ 2 * 512 =
        length-set (bytes_at (v.content d drive) location chunk_size) byte_offset marked
        ∙ length-bytes_at (v.content d drive) location chunk_size in
      rw after (
        v.write_ok drive 2 location changed d fine long a
        ∙ elim (Bool-cases (leb location a && ltb a (location + 2 * 512))) [
          | inl inside ↦
              let k : ℕ = a - location in
              let here : location + k ≡ a = ground (arith, inside) in
              rw inside (
                get_or-changed (v.content d drive) location chunk_size byte_offset k marked
                  (omega arith) (ground (arith, inside))
                ∙ ground (arith, place, here))
          | inr outside ↦ rw outside (ground (arith, place, outside))
        ])

  -- markChunkAsUsed: where it succeeds, the bit of its chunk is set in the allocation map, and
  -- every other bit of the map is as it was.
  pub mark_chunk_as_used_lem :
      (mark_chunk_as_used v drive n d).0 ≡ ok
      → (k : ℕ)
      → clear_bit v drive (mark_chunk_as_used v drive n d).1 k
        ≡ (if k == n then false else clear_bit v drive d k)
  mark_chunk_as_used_lem h k = elim (Bool-cases (k / 8 == n / 8)) [
    | inl e ↦
        let same : k / 8 ≡ n / 8 = (==_iff _ _).0 e in
        let bit : n % bits_per_chunk % 8 ≡ n % 8 = omega arith in
        ap (λ b. is_clear b (k % 8)) (mark-content h (k / 8))
        ∙ rw (e, bit)
            (is_clear-bit_or (v.content d drive (n / 8)) (n % 8) (k % 8)
                (v.content-lt d drive (n / 8)) (omega arith) (omega arith)
              ∙ rw same (ground arith))
    | inr e ↦ ap (λ b. is_clear b (k % 8)) (mark-content h (k / 8)) ∙ rw e (ground arith)
  ]
