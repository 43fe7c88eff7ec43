-- ===== src/Kstdlib/Strings.antt =====
-- kstrlen, kstrcpy and kstrncpy on NUL-terminated strings.
use palley_os.Prelude.{
  ℕ, zero, suc, ◌+◌, ◌-◌, ◌%◌, ◌≤◌, ◌<◌, ◌≡◌, ◌⊎◌, some, List, [], ◌∷◌, arith, u32_mod, length,
  take, length-take,
}
use palley_os.Prelude.Memory.{Mem, store, CStr}
use palley_os.Kstdlib.{sub32, strlen_loop, kstrlen, strcpy_loop, kstrcpy, strncpy_loop, kstrncpy}

strlen_loop-length :
    (fuel : ℕ) (m : Mem) (p : ℕ) (s : List ℕ) (counter : ℕ)
    → CStr m p s
    → length s < fuel
    → counter + length s < u32_mod
    → strlen_loop fuel m p counter ≡ some (counter + length s)
unfolding strlen_loop
strlen_loop-length zero m p s counter h enough fits = absurd (omega arith)
strlen_loop-length (suc fuel) m p [] counter h enough fits = ground arith
strlen_loop-length (suc fuel) m p (c ∷ s) counter h enough fits = ground (
  arith,
  strlen_loop-length fuel m (p + 1) s ((counter + 1) % u32_mod) h.3 (omega arith) (omega arith),
)

-- kstrlen: on a string of fewer than 2 ^ 32 characters the loop ends and returns their number,
-- with any fuel beyond that number.
pub kstrlen-length :
    (fuel : ℕ) (m : Mem) (p : ℕ) (s : List ℕ)
    → CStr m p s
    → length s < fuel
    → length s < u32_mod
    → kstrlen fuel m p ≡ some (length s)
unfolding kstrlen
kstrlen-length fuel m p s h enough fits =
    ground (arith, strlen_loop-length fuel m p s 0 h enough (omega arith))

-- A write outside a string leaves the string.
pub CStr-store :
    (m : Mem) (p a v : ℕ) (s : List ℕ)
    → CStr m p s
    → (a < p) ⊎ (p + length s < a)
    → CStr (store m a v) p s
CStr-store m p a v [] h out = ground arith
CStr-store m p a v (c ∷ s) h out =
    (ground arith, h.1, h.2, CStr-store m (p + 1) a v s h.3 (ground arith))

-- What strcpy leaves: the string stands at the destination, and nothing else is changed.
pub record Copied (m : Mem) (dest : ℕ) (s : List ℕ) (after : Mem) : Type 0 where
  pub there : CStr after dest s
  pub same : (a : ℕ) → (a < dest) ⊎ (dest + length s < a) → after a ≡ m a

strcpy_loop-Copied :
    (fuel : ℕ) (m : Mem) (dest src : ℕ) (s : List ℕ) (w : ℕ)
    → CStr m src s
    → length s < fuel
    → w + length s < u32_mod
    → (dest < src) ⊎ (src + length s < dest)
    → (after : Mem) × (strcpy_loop fuel m dest src w ≡ some (after, w + length s))
      × Copied m dest s after
unfolding strcpy_loop
strcpy_loop-Copied zero m dest src s w h enough fits apart = absurd (omega arith)
strcpy_loop-Copied (suc fuel) m dest src [] w h enough fits apart =
    (store m dest 0, ground arith, record { there = ground arith; same = λ a o. ground arith })
strcpy_loop-Copied (suc fuel) m dest src (c ∷ s) w h enough fits apart =
    let m1 : Mem = store m dest (m src) in
    let (after, e, copied) =
      strcpy_loop-Copied fuel m1 (dest + 1) (src + 1) s ((w + 1) % u32_mod)
        (CStr-store m (src + 1) dest (m src) s h.3 (ground arith)) (omega arith) (omega arith)
        (ground arith) in
    (
      after,
      ground arith,
      record {
        there = (ground (arith, copied.same dest), h.1, h.2, copied.there);
        same = λ a o. ground (arith, copied.same a);
      },
    )

-- kstrcpy: where the destination lies before the string, or behind its NUL, the copy ends, returns
-- the number of characters, and leaves the string with its NUL at the destination and every byte
-- outside that unchanged.
pub kstrcpy-Copied :
    (fuel : ℕ) (m : Mem) (dest src : ℕ) (s : List ℕ)
    → CStr m src s
    → length s < fuel
    → length s < u32_mod
    → (dest < src) ⊎ (src + length s < dest)
    → (after : Mem) × (kstrcpy fuel m dest src ≡ some (after, length s)) × Copied m dest s after
unfolding kstrcpy
kstrcpy-Copied fuel m dest src s h enough fits apart =
    let (after, e, copied) = strcpy_loop-Copied fuel m dest src s 0 h enough (omega arith) apart in
    (after, ground arith, copied)

strncpy_loop-Copied :
    (fuel : ℕ) (m : Mem) (dest src bound k : ℕ) (s : List ℕ) (w : ℕ)
    → CStr m src s
    → length s < fuel
    → w + k ≡ bound
    → bound < u32_mod
    → (dest < src) ⊎ (src + length s < dest)
    → (after : Mem) × (strncpy_loop fuel m dest src bound w ≡ some (after, w + length (take k s)))
      × Copied m dest (take k s) after
unfolding strncpy_loop
strncpy_loop-Copied zero m dest src bound k s w h enough e fits apart = absurd (omega arith)
strncpy_loop-Copied (suc fuel) m dest src bound zero [] w h enough e fits apart =
    (store m dest 0, ground arith, record { there = ground arith; same = λ a o. ground arith })
strncpy_loop-Copied (suc fuel) m dest src bound (suc k) [] w h enough e fits apart =
    (store m dest 0, ground arith, record { there = ground arith; same = λ a o. ground arith })
strncpy_loop-Copied (suc fuel) m dest src bound zero (c ∷ s) w h enough e fits apart =
    (store m dest 0, ground arith, record { there = ground arith; same = λ a o. ground arith })
strncpy_loop-Copied (suc fuel) m dest src bound (suc k) (c ∷ s) w h enough e fits apart =
    let m1 : Mem = store m dest (m src) in
    let (after, run, copied) =
      strncpy_loop-Copied fuel m1 (dest + 1) (src + 1) bound k s ((w + 1) % u32_mod)
        (CStr-store m (src + 1) dest (m src) s h.3 (ground arith)) (omega arith) (omega arith) fits
        (ground arith) in
    (
      after,
      ground arith,
      record {
        there = (ground (arith, copied.same dest), h.1, h.2, copied.there);
        same = λ a o. ground (arith, copied.same a);
      },
    )

-- kstrncpy: with `max` at least 1, and the destination before the string or behind its NUL, the
-- copy ends, leaves the first `max - 1` characters (all, of a shorter string) with a NUL at the
-- destination and every byte outside that unchanged, so that at most `max` bytes are written, and
-- returns the number of characters copied.
pub kstrncpy-Copied :
    (fuel : ℕ) (m : Mem) (dest src max : ℕ) (s : List ℕ)
    → CStr m src s
    → length s < fuel
    → 0 < max
    → max < u32_mod
    → (dest < src) ⊎ (src + length s < dest)
    → (after : Mem) × (kstrncpy fuel m dest src max ≡ some (after, length (take (max - 1) s)))
      × Copied m dest (take (max - 1) s) after
      × (length (take (max - 1) s) + 1 ≤ max)
unfolding kstrncpy
kstrncpy-Copied fuel m dest src max s h enough pos fits apart =
    let bound : sub32 max 1 ≡ max - 1 = omega arith in
    let (after, e, copied) =
      strncpy_loop-Copied fuel m dest src (sub32 max 1) (max - 1) s 0 h enough (omega arith)
        (omega arith) apart in
    (after, ground arith, copied, omega (arith, length-take (max - 1) s))
