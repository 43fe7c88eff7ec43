-- ===== src/Kstdlib/Fill.antt =====
-- What kmemset and kmemset_u16 leave in memory.
use palley_os.Prelude.{
  ℕ, zero, suc, ◌+◌, ◌-◌, ◌*◌, ◌/◌, ◌%◌, ◌≡◌, ◌&&◌, arith, ltb, leb, ◌==◌, if◌then◌else◌,
}
use palley_os.Prelude.Memory.{Mem, store}
use palley_os.Kstdlib.{kmemset, kmemset_u16}

-- kmemset: the `num` bytes from `dest` on hold the value, and every other byte is unchanged.
pub kmemset_lem :
    (m : Mem) (dest value num a : ℕ)
    → kmemset m dest value num a ≡ (if leb dest a && ltb a (dest + num) then value else m a)
unfolding kmemset
kmemset_lem m dest value zero a = ground arith
kmemset_lem m dest value (suc num) a =
    ground (arith, kmemset_lem (store m dest value) (dest + 1) value num a)

-- kmemset_u16: the `num` 16-bit cells from `dest` on hold the value, low byte first, and every byte
-- outside them is unchanged.
pub kmemset_u16_lem :
    (m : Mem) (dest value num a : ℕ)
    → kmemset_u16 m dest value num a ≡ (
        if leb dest a && ltb a (dest + 2 * num)
        then if (a - dest) % 2 == 0 then value % 256 else value / 256
        else m a)
unfolding kmemset_u16
kmemset_u16_lem m dest value zero a = ground arith
kmemset_u16_lem m dest value (suc num) a = ground (
  arith,
  kmemset_u16_lem (store (store m dest (value % 256)) (dest + 1) (value / 256)) (dest + 2) value num
      a,
)
