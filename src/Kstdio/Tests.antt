-- ===== src/Kstdio/Tests.antt =====
-- The formatted output of numbers, and of a whole format.
use palley_os.Prelude.{ℕ, ◌≡◌, refl, inl, some, List, [], ◌∷◌, arith, get_or}
use palley_os.Prelude.Memory.{Mem, CStr}
use palley_os.Kstdio.{Out, kvsprintf}
use palley_os.Kstdio.Output.{Wrote}
use palley_os.Kstdio.Format.{Item, plain, convert_to, hexadecimal, format_of, Renders}
use palley_os.Kstdio.Format.Run.{Printed, kvsprintf-Printed}

abbrev nothing : Mem
nothing a = 0

abbrev start : Out
start = record { mem = nothing; result_i = 0 }

start-Wrote : Wrote nothing 64 [] start
start-Wrote = record { count = refl; bytes = λ i h. absurd (omega arith); same = λ a h. refl }

-- The format `a%x`, at 1.
abbrev items : List Item
items = plain 97 ∷ convert_to (hexadecimal 48879) ∷ []

abbrev memory : Mem
memory a = get_or (0 ∷ 97 ∷ 37 ∷ 120 ∷ 0 ∷ []) a 0

format_stands : CStr memory 1 (format_of items)
format_stands = (
  refl,
  omega arith,
  omega arith,
  (refl, omega arith, omega arith, (refl, omega arith, omega arith, refl)),
)

kvsprintf-Printed_example :
    (u : List ℕ) × (after : Mem) × (kvsprintf 100 memory 64 1 (48879 ∷ []) ≡ some after)
    × Renders items u
    × Printed memory 64 u after
kvsprintf-Printed_example =
    kvsprintf-Printed memory 64 1 items 100 (omega arith) (omega arith, (omega arith, tt))
      format_stands (inl (omega arith)) (omega arith)
