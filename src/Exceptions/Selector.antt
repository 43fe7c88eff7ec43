-- ===== src/Exceptions/Selector.antt =====
-- src/exceptions.c, generalProtFaultHandler: the texts that it shows and the numbers in the error code.
use Prim.Native.Nat.{bit_and}
use palley_os.Prelude.Words.{bit_and-six, bit_and-not_seven}
use palley_os.Prelude.{
  ℕ, ◌-◌, ◌/◌, ◌%◌, ◌<◌, ◌≡◌, refl, ap, ◌∙◌, Bool, true, false, List, [], ◌∷◌, ◌++◌, arith, ◌==◌,
  if◌then◌else◌, u32_mod,
}
use palley_os.Prelude.Memory.{Mem}
use palley_os.Kstdio.Format.{Item, plain, convert_to, binary, signed, text, AreItems, Renders}
use palley_os.Kprintf.Shown.{HaveCharacters}

-- "General Protection Fault, error code: 0b", "Table: " and ", Selector Index: ".
abbrev pub error_code_text : List ℕ
error_code_text =
    71 ∷ 101 ∷ 110 ∷ 101 ∷ 114 ∷ 97 ∷ 108 ∷ 32 ∷ 80 ∷ 114 ∷ 111 ∷ 116 ∷ 101 ∷ 99 ∷ 116 ∷ 105 ∷ 111
    ∷ 110 ∷ 32 ∷ 70 ∷ 97 ∷ 117 ∷ 108 ∷ 116 ∷ 44 ∷ 32 ∷ 101 ∷ 114 ∷ 114 ∷ 111 ∷ 114 ∷ 32 ∷ 99 ∷ 111
    ∷ 100 ∷ 101 ∷ 58 ∷ 32 ∷ 48 ∷ 98 ∷ []

abbrev pub table_text : List ℕ
table_text = 84 ∷ 97 ∷ 98 ∷ 108 ∷ 101 ∷ 58 ∷ 32 ∷ []

abbrev pub index_text : List ℕ
index_text =
    44 ∷ 32 ∷ 83 ∷ 101 ∷ 108 ∷ 101 ∷ 99 ∷ 116 ∷ 111 ∷ 114 ∷ 32 ∷ 73 ∷ 110 ∷ 100 ∷ 101 ∷ 120 ∷ 58
    ∷ 32 ∷ []

-- The table that an error code of the processor names: the bit 1 stands for the interrupt
-- descriptor table, and without it the bit 2 for the local one.
abbrev pub table_name : ℕ → List ℕ
table_name err =
    if err / 2 % 2 == 1
    then 73 ∷ 68 ∷ 84 ∷ []
    else if err / 4 % 2 == 1
    then 76 ∷ 68 ∷ 84 ∷ []
    else 71 ∷ 68 ∷ 84 ∷ []

-- Plain characters in front of items.
abbrev pub plains : List ℕ → List Item → List Item
plains [] is = is
plains (c ∷ cs) is = plain c ∷ plains cs is

-- The two formats with their arguments.
abbrev pub error_code_items : ℕ → List Item
error_code_items err = plains error_code_text (convert_to (binary err) ∷ plain 10 ∷ [])

abbrev pub selector_items : ℕ → List ℕ → ℕ → List Item
selector_items p s index =
    plains table_text
      (convert_to (text p s) ∷ plains index_text (convert_to (signed index) ∷ plain 10 ∷ []))

-- No `%`, which evaluation decides.
abbrev no_percent : List ℕ → Bool
no_percent [] = true
no_percent (c ∷ cs) = if c == b'%' then false else no_percent cs

module _ (m : Mem) (result limit : ℕ) where
  pub AreItems-plains :
      (cs : List ℕ) (is : List Item)
      → no_percent cs ≡ true
      → AreItems m result limit is
      → AreItems m result limit (plains cs is)
  AreItems-plains [] is clean rest = rest
  AreItems-plains (c ∷ cs) is clean rest = (ground arith, AreItems-plains cs is (ground arith) rest)

pub Renders-plains :
    (cs : List ℕ) (is : List Item) (u : List ℕ)
    → Renders (plains cs is) u
    → (w : List ℕ) × Renders is w × (u ≡ cs ++ w)
Renders-plains [] is u r = (u, r, refl)
Renders-plains (c ∷ cs) is u (w, r, e) =
    let (w', r', e') = Renders-plains cs is w r in (w', r', e ∙ ap (λ s. c ∷ s) e')

pub HaveCharacters-plains :
    (cs : List ℕ) (is : List Item) → HaveCharacters is → HaveCharacters (plains cs is)
HaveCharacters-plains [] is h = h
HaveCharacters-plains (c ∷ cs) is h = HaveCharacters-plains cs is h

-- The numbers that the handler takes from the error code.
pub table_number : (err : ℕ) → bit_and err 0x6 / 2 ≡ err / 2 % 4
table_number err = omega (arith, bit_and-six err)

pub index_number : (err : ℕ) → err < u32_mod → bit_and err (u32_mod - 8) / 8 ≡ err / 8
index_number err h = omega (arith, bit_and-not_seven err h)
