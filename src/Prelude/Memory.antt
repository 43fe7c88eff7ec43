-- ===== src/Prelude/Memory.antt =====
-- Byte-addressed memory, for the routines that walk pointers. Pointer arithmetic that leaves the
-- address space is undefined in C; addresses are plain numbers here.
use Prim.Native.Nat.{ℕ, ◌+◌, ◌≤◌, ◌<◌}
use native.Mathlib.Omega.{arith}
use mathlib.Core.Path.{◌≡◌}
use mathlib.Core.Logic.{◌≢◌}
use mathlib.Core.List.{List, [], ◌∷◌}
use package.palley_os.Prelude.Lists.{length}
use package.palley_os.Prelude.Tests.{◌==◌, if◌then◌else◌}

abbrev pub Mem : Type 0
Mem = ℕ → ℕ

-- `*a = v` for a byte.
abbrev pub store : Mem → ℕ → ℕ → Mem
store m a v b = if b == a then v else m b

-- A NUL-terminated string stands at `p`.
abbrev pub CStr : Mem → ℕ → List ℕ → Type 0
CStr m p [] = m p ≡ 0
CStr m p (c ∷ s) = (m p ≡ c) × (c ≢ 0) × (c < 256) × CStr m (p + 1) s

-- Memories that agree on a string and its NUL.
pub CStr-agree :
    (m n : Mem) (p : ℕ) (s : List ℕ)
    → ((a : ℕ) → p ≤ a → a ≤ p + length s → n a ≡ m a)
    → CStr m p s
    → CStr n p s
CStr-agree m n p [] same h = ground (arith, same p)
CStr-agree m n p (c ∷ s) same h = (
  ground (arith, same p),
  h.1,
  h.2,
  CStr-agree m n (p + 1) s (λ a lo hi. same a (omega arith) (omega arith)) h.3,
)
