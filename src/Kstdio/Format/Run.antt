-- ===== src/Kstdio/Format/Run.antt =====
-- kvsprintf on a whole format: the text that it leaves, and the format that it gives up.
use mathlib.Core.List.{append_assoc, append-nil}
use palley_os.Prelude.{
  ℕ, zero, suc, ◌+◌, ◌≤◌, ◌<◌, ◌≡◌, ◌≢◌, refl, ap, ◌∙◌, ◌⊎◌, some, List, [], ◌∷◌, ◌++◌, arith,
  ==_ne, length, get_or, length-append, u32_mod,
}
use palley_os.Prelude.Memory.{Mem, store, CStr}
use palley_os.Kstdio.{Out, put_char, rendered, bad, convert, vsprintf_loop, kvsprintf}
use palley_os.Kstdio.Output.{Wrote, Wrote-put_char, Wrote-nul}
use palley_os.Kstdio.Format.{
  Conversion, text, Item, plain, convert_to, letter, argument, format_of, arguments, capacity,
  Renders, Clear, AreItems,
}
use palley_os.Kstdio.Format.Loop.{CStr-Wrote, convert-Converted}

-- The rounds that the items ask for.
abbrev pub weight : Conversion → ℕ
weight (text p s) = length s
weight _ = 0

abbrev pub cost : List Item → ℕ
cost [] = 1
cost (plain c ∷ is) = 1 + cost is
cost (convert_to k ∷ is) = 1 + (weight k + cost is)

cost-pos : (is : List Item) → 0 < cost is
cost-pos [] = omega arith
cost-pos (plain c ∷ is) = omega arith
cost-pos (convert_to k ∷ is) = omega arith

-- The text with its NUL at `result`, and every other byte as in `m`.
pub record Printed (m : Mem) (result : ℕ) (t : List ℕ) (after : Mem) : Type 0 where
  pub bytes : (i : ℕ) → i < length t → after (result + i) ≡ get_or t i 0
  pub nul : after (result + length t) ≡ 0
  pub same : (a : ℕ) → (a < result) ⊎ (result + length t < a) → after a ≡ m a

module _ (fuel result format : ℕ) (out : Out) (args : List ℕ) where
  loop-end :
      out.mem format ≡ 0
      → vsprintf_loop (suc fuel) result format out args
        ≡ some (store out.mem (result + out.result_i) 0)
  unfolding vsprintf_loop
  loop-end e = ground arith

  loop-plain :
      (c : ℕ)
      → out.mem format ≡ c
      → c ≢ 0
      → c ≢ b'%'
      → vsprintf_loop (suc fuel) result format out args
        ≡ vsprintf_loop fuel result (format + 1) (put_char result out c) args
  unfolding vsprintf_loop
  loop-plain c e nz np = ground arith

  loop-convert :
      (c : ℕ) (out' : Out) (args' : List ℕ)
      → out.mem format ≡ b'%'
      → out.mem (format + 1) ≡ c
      → convert fuel result out c args ≡ rendered out' args'
      → vsprintf_loop (suc fuel) result format out args
        ≡ vsprintf_loop fuel result (format + 2) out' args'
  unfolding vsprintf_loop
  loop-convert c out' args' e f g = ground arith

module _ (m : Mem) (result limit : ℕ) (room : limit + 64 < u32_mod) where
  vsprintf_loop-Printed :
      (is : List Item) (fuel format : ℕ) (t : List ℕ) (out : Out)
      → Wrote m result t out
      → AreItems m result limit is
      → length t + capacity is ≤ limit
      → CStr m format (format_of is)
      → Clear result limit format (format_of is)
      → cost is ≤ fuel
      → (u : List ℕ) × (after : Mem) × (vsprintf_loop fuel result format out (arguments is)
          ≡ some after)
        × Renders is u
        × Printed m result (t ++ u) after
  vsprintf_loop-Printed is zero format t out w ok fits h clear enough =
      absurd (omega (arith, cost-pos is))
  vsprintf_loop-Printed [] (suc fuel) format t out w ok fits h clear enough =
      let here : CStr out.mem format [] =
        CStr-Wrote m result limit format [] t out w (omega arith) clear h in
      let n = Wrote-nul m result t out w in
      (
        [],
        store out.mem (result + out.result_i) 0,
        loop-end fuel result format out [] here,
        refl,
        rw append-nil (record { bytes = n.bytes; nul = ground (arith, w.count); same = n.same }),
      )
  vsprintf_loop-Printed (plain c ∷ is) (suc fuel) format t out w ok fits h clear enough =
      let here : out.mem format ≡ c =
        (CStr-Wrote m result limit format (format_of (plain c ∷ is)) t out w (omega arith) clear
          h).0 in
      let (u, after, run, made, printed) =
        vsprintf_loop-Printed is fuel (format + 1) (t ++ (c ∷ [])) (put_char result out c)
          (Wrote-put_char m result c t out w (omega arith)) ok.1
          (omega (arith, length-append t (c ∷ []))) h.3 (ground arith) (omega arith) in
      (
        c ∷ u,
        after,
        loop-plain fuel result format out (arguments is) c here h.1 ok.0 ∙ run,
        (u, made, refl),
        rw (← append_assoc t (c ∷ []) u) printed,
      )
  vsprintf_loop-Printed (convert_to k ∷ is) (suc fuel) format t out w ok fits h clear enough =
      let there : CStr out.mem format (format_of (convert_to k ∷ is)) =
        CStr-Wrote m result limit format (format_of (convert_to k ∷ is)) t out w (omega arith) clear
          h in
      let conv =
        convert-Converted m result limit fuel t (arguments is) out w room k (omega arith) ok.0
          (omega arith) (λ p s e. omega (arith, ap weight e, cost-pos is)) in
      let (u, after, run, made, printed) =
        vsprintf_loop-Printed is fuel (format + 2) (t ++ conv.made) conv.out conv.wrote ok.1
          (omega (arith, length-append t conv.made, conv.narrow)) (ground (arith, h.3.3))
          (ground arith) (omega arith) in
      (
        conv.made ++ u,
        after,
        loop-convert fuel result format out (argument k ∷ arguments is) (letter k) conv.out
              (arguments is) there.0 there.3.0 conv.ends
            ∙ run,
        (conv.made, u, conv.is_made, made, refl),
        rw (← append_assoc t conv.made u) printed,
      )

-- kvsprintf: on a format of plain characters and %d, %u, %x, %b, %c and %s, with an argument for
-- each conversion, and the format and the strings clear of the output, it ends, and leaves at the
-- result the plain characters with what each conversion makes of its argument, in order, and a NUL
-- behind them, and every other byte of memory as it was.
pub kvsprintf-Printed :
    (m : Mem) (result format : ℕ) (is : List Item) (fuel : ℕ)
    → capacity is + 64 < u32_mod
    → AreItems m result (capacity is) is
    → CStr m format (format_of is)
    → Clear result (capacity is) format (format_of is)
    → cost is ≤ fuel
    → (u : List ℕ) × (after : Mem) × (kvsprintf fuel m result format (arguments is) ≡ some after)
      × Renders is u
      × Printed m result u after
unfolding kvsprintf
kvsprintf-Printed m result format is fuel room ok h clear enough =
    let start : Wrote m result [] (record { mem = m; result_i = 0 }) = record {
      count = refl;
      bytes = λ i lt. absurd (omega arith);
      same = λ a o. refl;
    } in
    vsprintf_loop-Printed m result (capacity is) room is fuel format []
      (record { mem = m; result_i = 0 }) start ok (omega arith) h clear enough

convert-bad :
    (fuel result c : ℕ) (out : Out) (args : List ℕ)
    → c ≢ b'd'
    → c ≢ b'u'
    → c ≢ b'x'
    → c ≢ b'b'
    → c ≢ b's'
    → c ≢ b'c'
    → convert fuel result out c args ≡ bad
unfolding convert
convert-bad fuel result c out [] n1 n2 n3 n4 n5 n6 =
    rw (==_ne c _ n1, ==_ne c _ n2, ==_ne c _ n3, ==_ne c _ n4, ==_ne c _ n5, ==_ne c _ n6) refl
convert-bad fuel result c out (a ∷ args) n1 n2 n3 n4 n5 n6 =
    rw (==_ne c _ n1, ==_ne c _ n2, ==_ne c _ n3, ==_ne c _ n4, ==_ne c _ n5, ==_ne c _ n6) refl

-- A `%` with a letter that names no conversion ends kvsprintf at once, with no NUL behind what it
-- has written: memory is left as it was before that `%`.
vsprintf_loop-bad :
    (fuel result format c : ℕ) (out : Out) (args : List ℕ)
    → out.mem format ≡ b'%'
    → out.mem (format + 1) ≡ c
    → c ≢ b'd'
    → c ≢ b'u'
    → c ≢ b'x'
    → c ≢ b'b'
    → c ≢ b's'
    → c ≢ b'c'
    → vsprintf_loop (suc fuel) result format out args ≡ some out.mem
unfolding vsprintf_loop
vsprintf_loop-bad fuel result format c out args e f n1 n2 n3 n4 n5 n6 =
    let gone : convert fuel result out (out.mem (format + 1)) args ≡ bad =
      rw f (convert-bad fuel result c out args n1 n2 n3 n4 n5 n6) in
    ground arith
