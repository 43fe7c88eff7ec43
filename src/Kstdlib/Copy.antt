-- ===== src/Kstdlib/Copy.antt =====
-- What kmemcpy leaves in memory.
use palley_os.Prelude.{
  ℕ, zero, suc, ◌+◌, ◌-◌, ◌%◌, ◌≤◌, ◌<◌, ◌≡◌, ◌⊎◌, ◌&&◌, arith, ltb, leb, if◌then◌else◌, u32_mod,
}
use palley_os.Prelude.Memory.{Mem, store}
use palley_os.Kstdlib.{memcpy_loop, kmemcpy}

memcpy_loop-bytes :
    (num : ℕ) (m : Mem) (dest src w a : ℕ)
    → (dest ≤ src) ⊎ (src + num ≤ dest)
    → (memcpy_loop m dest src num w).0 a
      ≡ (if leb dest a && ltb a (dest + num) then m (src + (a - dest)) else m a)
unfolding memcpy_loop
memcpy_loop-bytes zero m dest src w a h = ground arith
memcpy_loop-bytes (suc num) m dest src w a h =
    ground (
      arith,
      memcpy_loop-bytes num (store m dest (m src)) (dest + 1) (src + 1) ((w + 1) % u32_mod) a,
    )

memcpy_loop-count :
    (num : ℕ) (m : Mem) (dest src w : ℕ)
    → w + num < u32_mod
    → (memcpy_loop m dest src num w).1 ≡ w + num
unfolding memcpy_loop
memcpy_loop-count zero m dest src w h = omega arith
memcpy_loop-count (suc num) m dest src w h = omega (
  arith,
  memcpy_loop-count num (store m dest (m src)) (dest + 1) (src + 1) ((w + 1) % u32_mod)
      (omega arith),
)

-- kmemcpy: where the destination does not start inside the source behind its first byte, the
-- `num` bytes from `dest` on are the old bytes from `src` on, every other byte of memory is
-- unchanged, and the result is the number of bytes copied.
pub kmemcpy_lem :
    (m : Mem) (dest src num : ℕ)
    → (dest ≤ src) ⊎ (src + num ≤ dest)
    → num < u32_mod
    → ((a : ℕ)
        → (kmemcpy m dest src num).0 a
          ≡ (if leb dest a && ltb a (dest + num) then m (src + (a - dest)) else m a))
      × ((kmemcpy m dest src num).1 ≡ num)
unfolding kmemcpy
kmemcpy_lem m dest src num h fits =
    (λ a. memcpy_loop-bytes num m dest src 0 a h, omega (arith, memcpy_loop-count num m dest src 0))
