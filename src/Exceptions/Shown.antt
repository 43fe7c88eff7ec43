-- ===== src/Exceptions/Shown.antt =====
-- src/exceptions.c, generalProtFaultHandler: what it shows on the terminal.
use Prim.Native.Nat.{bit_and}
use mathlib.Core.Path.{subst}
use palley_os.Prelude.{
  ℕ, zero, suc, ◌+◌, ◌-◌, ◌/◌, ◌%◌, ◌≤◌, ◌<◌, ◌≡◌, refl, ap, ◌∙◌, ◌⊎◌, inl, inr, true, false, some,
  List, [], ◌∷◌, ◌++◌, arith, ◌==◌, length, length-append, get_or, u32_mod,
}
use palley_os.Prelude.Memory.{Mem, CStr, CStr-agree}
use palley_os.Ports.{Ports}
use palley_os.Kstdio.{binary_digit}
use palley_os.Kstdio.Numbers.{Numeral}
use palley_os.Kstdio.Signed.{Signed}
use palley_os.Kstdio.Format.{
  Item, plain, convert_to, binary, signed, text, format_of, capacity, Clear,
}
use palley_os.Vga.{vga_color_white}
use palley_os.Console.{S}
use palley_os.Console.View.{Text, Refines}
use palley_os.Console.Text.{write}
use palley_os.Kprintf.{kprintf}
use palley_os.Kprintf.Shown.{kprintf-Refines, write-at-most}
use palley_os.Shell.Round.{Apart}
use palley_os.Exceptions.{Strings, looping, report, general_prot_fault_handler}
use palley_os.Exceptions.Selector.{
  error_code_text, table_text, index_text, table_name, plains, error_code_items, selector_items,
  AreItems-plains, Renders-plains, HaveCharacters-plains, table_number, index_number,
}

-- The strings of the handler stand in memory, away from the buffer of kprintf.
pub record Standing (strings : Strings) (result : ℕ) (m : Mem) : Type 0 where
  pub first : CStr m strings.general_prot_fault (format_of (error_code_items 0))
  pub second : CStr m strings.table (format_of (selector_items 0 [] 0))
  pub gdt : CStr m strings.gdt (71 ∷ 68 ∷ 84 ∷ [])
  pub second_idt : CStr m strings.second_idt (73 ∷ 68 ∷ 84 ∷ [])
  pub ldt : CStr m strings.ldt (76 ∷ 68 ∷ 84 ∷ [])
  pub fourth_idt : CStr m strings.fourth_idt (73 ∷ 68 ∷ 84 ∷ [])
  pub first_apart : Apart result 1024 strings.general_prot_fault 44
  pub second_apart : Apart result 1024 strings.table 31
  pub gdt_apart : Apart result 1024 strings.gdt 4
  pub second_idt_apart : Apart result 1024 strings.second_idt 4
  pub ldt_apart : Apart result 1024 strings.ldt 4
  pub fourth_idt_apart : Apart result 1024 strings.fourth_idt 4

-- The address that the handler takes from its array.
abbrev table_at : Strings → ℕ → ℕ
table_at strings k =
    get_or (strings.gdt ∷ strings.second_idt ∷ strings.ldt ∷ strings.fourth_idt ∷ []) k 0

table-Stands :
    (strings : Strings) (result : ℕ) (m : Mem) (err k : ℕ)
    → Standing strings result m
    → err / 2 % 4 ≡ k
    → CStr m (table_at strings k) (table_name err)
      × Apart result 1024 (table_at strings k) 4
      × (length (table_name err) ≡ 3)
table-Stands strings result m err zero st e =
    let idt : (err / 2 % 2 == 1) ≡ false = ground arith in
    let ldt : (err / 4 % 2 == 1) ≡ false = ground arith in
    rw (idt, ldt) (st.gdt, st.gdt_apart, refl)
table-Stands strings result m err (suc zero) st e =
    let idt : (err / 2 % 2 == 1) ≡ true = ground arith in
    rw idt (st.second_idt, st.second_idt_apart, refl)
table-Stands strings result m err (suc (suc zero)) st e =
    let idt : (err / 2 % 2 == 1) ≡ false = ground arith in
    let ldt : (err / 4 % 2 == 1) ≡ true = ground arith in rw (idt, ldt) (st.ldt, st.ldt_apart, refl)
table-Stands strings result m err (suc (suc (suc zero))) st e =
    let idt : (err / 2 % 2 == 1) ≡ true = ground arith in
    rw idt (st.fourth_idt, st.fourth_idt_apart, refl)
table-Stands strings result m err (suc (suc (suc (suc k)))) st e = absurd (omega arith)

-- The two texts that are shown.
abbrev pub first_line : List ℕ → List ℕ
first_line digits = error_code_text ++ (digits ++ (10 ∷ []))

abbrev pub second_line : List ℕ → List ℕ → List ℕ
second_line table index = table_text ++ (table ++ (index_text ++ (index ++ (10 ∷ []))))

module _ (v : Ports) (result fuel : ℕ) (enough : 1000 < fuel) where
  first-shown :
      (m : Mem) (format err : ℕ) (t : Text) (c : S v)
      → err < u32_mod
      → CStr m format (format_of (error_code_items 0))
      → Apart result 1024 format 44
      → Refines t c
      → t.at / 80 < 100
      → (digits : List ℕ) × (m' : Mem) × (c' : S v) × (kprintf v result fuel m format (err ∷ []) c
          ≡ some (m', c'))
        × Numeral 2 binary_digit err digits
        × Refines (write (first_line digits) vga_color_white t) c'
        × ((a : ℕ) → (a < result) ⊎ (result + 1024 ≤ a) → m' a ≡ m a)
  first-shown m format err t c word h apart r rows =
      let rest : List Item = convert_to (binary err) ∷ plain 10 ∷ [] in
      let (u, m', c', run, made, shown, same) =
        kprintf-Refines v m result format (error_code_items err) fuel t c (omega arith)
          (AreItems-plains m result 73 error_code_text rest refl (word, (omega arith, tt)))
          (HaveCharacters-plains error_code_text rest (tt, tt)) h (clear apart) r (omega arith)
          (omega arith) in
      let (w, (digits, w', numeral, (w'', none_left, e''), e'), e) =
        Renders-plains error_code_text rest u made in
      let line : u ≡ first_line digits =
        e ∙ ap (λ s. error_code_text ++ s) (e' ∙ rw (e'', none_left) refl) in
      (
        digits,
        m',
        c',
        run,
        numeral,
        subst (λ s. Refines (write s vga_color_white t) c') line shown,
        same,
      )
    where
      clear : Apart result 1024 format 44 → (format + 43 < result) ⊎ (result + 73 < format)
      clear (inl before) = inr (omega arith)
      clear (inr behind) = inl (omega arith)

  second-shown :
      (m : Mem) (format p index : ℕ) (s : List ℕ) (t : Text) (c : S v)
      → index < u32_mod
      → length s ≡ 3
      → CStr m format (format_of (selector_items 0 [] 0))
      → CStr m p s
      → Apart result 1024 format 31
      → Apart result 1024 p 4
      → Refines t c
      → t.at / 80 < 174
      → (digits : List ℕ) × (m' : Mem) × (c' : S v) × (kprintf v result fuel m format
            (p ∷ index ∷ [])
            c
          ≡ some (m', c'))
        × Signed index digits
        × Refines (write (second_line s digits) vga_color_white t) c'
  second-shown m format p index s t c word three h hs apart away r rows =
      let later : List Item = convert_to (signed index) ∷ plain 10 ∷ [] in
      let rest : List Item = convert_to (text p s) ∷ plains index_text later in
      let limit : ℕ = capacity (selector_items p s index) in
      let (u, m', c', run, made, shown, same) =
        kprintf-Refines v m result format (selector_items p s index) fuel t c (omega arith)
          (AreItems-plains m result limit table_text rest refl (
            (hs, clear_name away),
            AreItems-plains m result limit index_text later refl (word, (omega arith, tt)),
          ))
          (HaveCharacters-plains table_text rest
            (tt, HaveCharacters-plains index_text later (tt, tt)))
          h (clear apart) r (omega arith) (omega arith) in
      let (w, (name, w1, same_name, more, e1), e) = Renders-plains table_text rest u made in
      let (w2, (digits, w3, numeral, (w4, none_left, e4), e3), e2) =
        Renders-plains index_text later w1 more in
      let tail : w2 ≡ digits ++ (10 ∷ []) = e3 ∙ rw (e4, none_left) refl in
      let middle : w ≡ s ++ (index_text ++ (digits ++ (10 ∷ []))) =
        e1 ∙ rw (same_name, e2, tail) refl in
      let line : u ≡ second_line s digits = e ∙ ap (λ x. table_text ++ x) middle in
      (digits, m', c', run, numeral, subst (λ x. Refines (write x vga_color_white t) c') line shown)
    where
      clear :
          Apart result 1024 format 31
          → (format + 30 < result) ⊎ (result + capacity (selector_items p s index) < format)
      clear (inl before) = inr (omega arith)
      clear (inr behind) = inl (omega arith)

      clear_name : Apart result 1024 p 4 → Clear result (capacity (selector_items p s index)) p s
      clear_name (inl before) = inr (omega arith)
      clear_name (inr behind) = inl (omega arith)

  handler-both :
      (strings : Strings) (err index : ℕ) (m m1 m2 : Mem) (c c1 c2 : S v)
      → bit_and err (u32_mod - 8) / 8 ≡ index
      → kprintf v result fuel m strings.general_prot_fault (err ∷ []) c ≡ some (m1, c1)
      → kprintf v result fuel m1 strings.table
          (table_at strings (bit_and err 0x6 / 2) ∷ index ∷ [])
          c1
        ≡ some (m2, c2)
      → general_prot_fault_handler v strings result fuel err m c ≡ some (looping, m2, c2)
  unfolding general_prot_fault_handler report
  handler-both strings err index m m1 m2 c c1 c2 number one two =
      rw (one, number, two, general_prot_fault_handler, report) refl

  Standing-same :
      (strings : Strings) (m m1 : Mem) (p n : ℕ) (s : List ℕ)
      → ((a : ℕ) → (a < result) ⊎ (result + 1024 ≤ a) → m1 a ≡ m a)
      → Apart result 1024 p n
      → length s < n
      → CStr m p s
      → CStr m1 p s
  Standing-same strings m m1 p n s same apart fits h =
      CStr-agree m m1 p s (λ a lo hi. same a (ground arith)) h

  -- generalProtFaultHandler: for an error code of 32 bits, with the strings of the handler in memory
  -- away from the buffer of kprintf, and a terminal that refines a text in its first 100 rows, and
  -- with more than 1000 rounds of fuel, it shows
  -- a line with the binary digits of the code, and a line with the name of the table that the code
  -- stands for and the decimal digits of the code without its lowest three bits, and ends in its
  -- loop.
  pub general_prot_fault_handler-Refines :
      (strings : Strings) (err : ℕ) (m : Mem) (t : Text) (c : S v)
      → err < u32_mod
      → Standing strings result m
      → Refines t c
      → t.at / 80 < 100
      → (digits index : List ℕ) × (m' : Mem) × (c' : S v) × (general_prot_fault_handler v strings
            result fuel err m c
          ≡ some (looping, m', c'))
        × Numeral 2 binary_digit err digits
        × Signed (err / 8) index
        × Refines
            (write
              (second_line (table_name err) index)
              vga_color_white
              (write (first_line digits) vga_color_white t))
            c'
  general_prot_fault_handler-Refines strings err m t c word st r rows =
      let (digits, m1, c1, one, numeral, shown, same) =
        first-shown m strings.general_prot_fault err t c word st.first st.first_apart r rows in
      let (name, away, three) = table-Stands strings result m err (err / 2 % 4) st refl in
      let further = write-at-most (first_line digits) vga_color_white t in
      let (index, m2, c2, two, decimal, shown') =
        second-shown m1 strings.table (table_at strings (err / 2 % 4)) (err / 8) (table_name err)
          (write (first_line digits) vga_color_white t) c1 (omega arith) three
          (Standing-same strings m m1 strings.table 31 (format_of (selector_items 0 [] 0)) same
            st.second_apart (omega arith) st.second)
          (Standing-same strings m m1 (table_at strings (err / 2 % 4)) 4 (table_name err) same away
            (omega arith) name)
          st.second_apart away shown
          (omega (arith, numeral.short, length-append digits (10 ∷ []))) in
      (
        digits,
        index,
        m2,
        c2,
        handler-both strings err (err / 8) m m1 m2 c c1 c2 (index_number err word) one
            (rw (table_number err) two),
        numeral,
        decimal,
        shown',
      )
