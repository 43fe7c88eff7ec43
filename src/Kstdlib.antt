-- ===== src/Kstdlib.antt =====
-- src/stdlib/kstdlib.c: the string and memory routines of the kernel, over byte memory. A loop that
-- stops at a NUL byte runs on fuel, and gives `none` when the fuel is used up before a NUL is met;
-- a loop that counts a size_t down recurs on the count.
pub mod Strings
pub mod Copy
pub mod Fill
pub mod Compare
mod Tests
use palley_os.Prelude.{
  ℕ, zero, suc, ◌+◌, ◌-◌, ◌/◌, ◌%◌, true, false, ◌||◌, Option, none, some, ◌==◌, ltb, if◌then◌else◌,
  u32_mod,
}
use palley_os.Prelude.Memory.{Mem, store}

-- A char is signed: its value as a 32-bit pattern.
abbrev pub sign_extend : ℕ → ℕ
sign_extend c = if ltb c 128 then c else c + (u32_mod - 256)

-- `a - b` of two ints, as the bit pattern that is returned in a size_t.
abbrev pub sub32 : ℕ → ℕ → ℕ
sub32 a b = (a + u32_mod - b) % u32_mod

strlen_loop : ℕ → Mem → ℕ → ℕ → Option ℕ
strlen_loop zero m p counter = none
strlen_loop (suc fuel) m p counter = elim (m p == 0) [
  | true ↦ some counter
  | false ↦ strlen_loop fuel m (p + 1) ((counter + 1) % u32_mod)
]

pub kstrlen : ℕ → Mem → ℕ → Option ℕ
unfolding strlen_loop
kstrlen fuel m p = strlen_loop fuel m p 0

unfoldable pub kstrcmp : ℕ → Mem → ℕ → ℕ → Option ℕ
kstrcmp zero m p q = none
kstrcmp (suc fuel) m p q = elim ((m p == 0) || (m q == 0)) [
  | true ↦ some 0
  | false ↦
      let diff = sub32 (sign_extend (m p)) (sign_extend (m q)) in
      let rest = kstrcmp fuel m (p + 1) (q + 1) in if diff == 0 then rest else some diff
]

unfoldable pub kmemcmp : Mem → ℕ → ℕ → ℕ → ℕ
kmemcmp m p q zero = 0
kmemcmp m p q (suc num) =
    let diff = sub32 (m p) (m q) in
    let rest = kmemcmp m (p + 1) (q + 1) num in if diff == 0 then rest else diff

-- The memory after the loop, and the number of characters written.
strcpy_loop : ℕ → Mem → ℕ → ℕ → ℕ → Option (Mem × ℕ)
strcpy_loop zero m dest src num_written = none
strcpy_loop (suc fuel) m dest src num_written = elim (m src == 0) [
  | true ↦ some (store m dest 0, num_written)
  | false ↦
      strcpy_loop fuel (store m dest (m src)) (dest + 1) (src + 1) ((num_written + 1) % u32_mod)
]

unfoldable pub kstrcpy : ℕ → Mem → ℕ → ℕ → Option (Mem × ℕ)
unfolding strcpy_loop
kstrcpy fuel m dest src = strcpy_loop fuel m dest src 0

-- `bound` is `max - 1`, a size_t, so it is 2 ^ 32 - 1 where `max` is 0.
strncpy_loop : ℕ → Mem → ℕ → ℕ → ℕ → ℕ → Option (Mem × ℕ)
strncpy_loop zero m dest src bound num_written = none
strncpy_loop (suc fuel) m dest src bound num_written =
    let rest =
      strncpy_loop fuel (store m dest (m src)) (dest + 1) (src + 1) bound
        ((num_written + 1) % u32_mod) in
    if m src == 0
    then some (store m dest 0, num_written)
    else if ltb num_written bound
    then rest
    else some (store m dest 0, num_written)

unfoldable pub kstrncpy : ℕ → Mem → ℕ → ℕ → ℕ → Option (Mem × ℕ)
unfolding strncpy_loop
kstrncpy fuel m dest src max = strncpy_loop fuel m dest src (sub32 max 1) 0

memcpy_loop : Mem → ℕ → ℕ → ℕ → ℕ → Mem × ℕ
memcpy_loop m dest src zero num_written = (m, num_written)
memcpy_loop m dest src (suc num) num_written =
    memcpy_loop (store m dest (m src)) (dest + 1) (src + 1) num ((num_written + 1) % u32_mod)

unfoldable pub kmemcpy : Mem → ℕ → ℕ → ℕ → Mem × ℕ
unfolding memcpy_loop
kmemcpy m dest src num = memcpy_loop m dest src num 0

unfoldable pub kmemset : Mem → ℕ → ℕ → ℕ → Mem
kmemset m dest value zero = m
kmemset m dest value (suc num) = kmemset (store m dest value) (dest + 1) value num

-- A uint16_t is stored with its low byte first.
unfoldable pub kmemset_u16 : Mem → ℕ → ℕ → ℕ → Mem
kmemset_u16 m dest value zero = m
kmemset_u16 m dest value (suc num) =
    kmemset_u16 (store (store m dest (value % 256)) (dest + 1) (value / 256)) (dest + 2) value num
