-- ===== src/Kprintf.antt =====
-- src/stdlib/kstdio.c: ksprintf, kvprintf and kprintf, which join kvsprintf and the terminal: the
-- text is rendered into a buffer of 1024 bytes on the stack and written from there. `none` is a
-- format that has run out of arguments, or fuel that has run out.
pub mod Shown
mod Tests
use palley_os.Prelude.{ℕ, Option, none, some, List}
use palley_os.Prelude.Memory.{Mem}
use palley_os.Ports.{Ports}
use palley_os.Kstdio.{kvsprintf}
use palley_os.Console.{S, tio_write}

abbrev pub result_size : ℕ
result_size = 1024

unfoldable pub ksprintf : ℕ → Mem → ℕ → ℕ → List ℕ → Option Mem
unfolding kvsprintf
ksprintf fuel m result format args = kvsprintf fuel m result format args

module _ (v : Ports) where
  -- `result` is the address of the buffer.
  unfoldable pub kvprintf : ℕ → ℕ → Mem → ℕ → List ℕ → S v → Option (Mem × S v)
  kvprintf result fuel m format args c = elim (kvsprintf fuel m result format args) [
    | none ↦ none
    | some after ↦ elim (tio_write v fuel after result c) [
      | none ↦ none
      | some c' ↦ some (after, c')
    ]
  ]

  unfoldable pub kprintf : ℕ → ℕ → Mem → ℕ → List ℕ → S v → Option (Mem × S v)
  unfolding kvprintf
  kprintf result fuel m format args c = kvprintf result fuel m format args c
