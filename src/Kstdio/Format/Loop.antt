-- ===== src/Kstdio/Format/Loop.antt =====
-- The loop of kvsprintf, one item of the format at a time.
use mathlib.Core.List.{append_assoc, append-nil}
use palley_os.Prelude.{
  ℕ, zero, suc, ◌+◌, ◌%◌, ◌≤◌, ◌<◌, ◌≡◌, refl, some, List, [], ◌∷◌, ◌++◌, arith, length,
  length-append, u32_mod,
}
use palley_os.Prelude.Memory.{Mem, CStr, CStr-agree}
use palley_os.Kstdio.{Out, put_char, render_string, Directive, rendered, convert}
use palley_os.Kstdio.Output.{Wrote, Wrote-put_char}
use palley_os.Kstdio.Numbers.{render_unsigned-Appends}
use palley_os.Kstdio.Signed.{Signed, positive, negative, render_integer-Appends}
use palley_os.Kstdio.Format.{
  Conversion, signed, unsigned, hexadecimal, binary, char, text, letter, argument, width, Made,
  Clear, IsConversion,
}

-- A string outside the output is still there.
pub CStr-Wrote :
    (m : Mem) (result limit p : ℕ) (s t : List ℕ) (out : Out)
    → Wrote m result t out
    → length t ≤ limit
    → Clear result limit p s
    → CStr m p s
    → CStr out.mem p s
CStr-Wrote m result limit p s t out w fits clear h =
    CStr-agree m out.mem p s (λ a lo hi. w.same a (ground arith)) h

-- render_string appends the string, which lies outside the output.
render_string-Wrote :
    (m : Mem) (result limit fuel p : ℕ) (s t : List ℕ) (out : Out)
    → Wrote m result t out
    → length t + length s ≤ limit
    → limit + 64 < u32_mod
    → Clear result limit p s
    → CStr m p s
    → length s < fuel
    → (out' : Out) × (render_string fuel result out p ≡ some out') × Wrote m result (t ++ s) out'
unfolding render_string
render_string-Wrote m result limit zero p s t out w fits room clear h enough = absurd (omega arith)
render_string-Wrote m result limit (suc fuel) p [] t out w fits room clear h enough =
    let here : CStr out.mem p [] = CStr-Wrote m result limit p [] t out w (omega arith) clear h in
    (out, ground arith, rw append-nil w)
render_string-Wrote m result limit (suc fuel) p (c ∷ s) t out w fits room clear h enough =
    let here : out.mem p ≡ c =
      (CStr-Wrote m result limit p (c ∷ s) t out w (omega arith) clear h).0 in
    let (out', run, w') =
      render_string-Wrote m result limit fuel (p + 1) s (t ++ (c ∷ [])) (put_char result out c)
        (Wrote-put_char m result c t out w (omega arith)) (omega (arith, length-append t (c ∷ [])))
        room (ground arith) h.3 (omega arith) in
    (out', ground (arith, h.1), rw (← append_assoc t (c ∷ []) s) w')

-- A conversion that went through.
pub record Converted (m : Mem) (result : ℕ) (t : List ℕ) (k : Conversion) (args : List ℕ)
    (d : Directive) : Type 0 where
  pub out : Out
  pub made : List ℕ
  pub ends : d ≡ rendered out args
  pub is_made : Made k made
  pub narrow : length made ≤ width k
  pub wrote : Wrote m result (t ++ made) out

Signed-length : (w : ℕ) (u : List ℕ) → Signed w u → length u ≤ 33
Signed-length w u (positive lt n) = omega (arith, n.short)
Signed-length w (c ∷ u) (negative le n) = omega (arith, n.short)

module _ (m : Mem) (result limit fuel : ℕ) (t args : List ℕ) (out : Out) (w : Wrote m result t out)
    (room : limit + 64 < u32_mod) where
  pub convert-Converted :
      (k : Conversion)
      → length t + width k ≤ limit
      → IsConversion m result limit k
      → length t + 64 < u32_mod
      → ((p : ℕ) (s : List ℕ) → k ≡ text p s → length s < fuel)
      → Converted m result t k args (convert fuel result out (letter k) (argument k ∷ args))
  unfolding convert
  convert-Converted (signed n) fits is small enough =
      let a = render_integer-Appends m result n t out w (omega arith) is in
      record {
        out = a.out;
        made = a.text;
        ends = rw a.ends refl;
        is_made = a.kind;
        narrow = Signed-length n a.text a.kind;
        wrote = a.wrote;
      }
  convert-Converted (unsigned n) fits is small enough =
      let a = (render_unsigned-Appends m result n t out w (omega arith) is).0 in
      record {
        out = a.out;
        made = a.text;
        ends = rw a.ends refl;
        is_made = a.kind;
        narrow = a.kind.short;
        wrote = a.wrote;
      }
  convert-Converted (hexadecimal n) fits is small enough =
      let a = (render_unsigned-Appends m result n t out w (omega arith) is).1 in
      record {
        out = a.out;
        made = a.text;
        ends = rw a.ends refl;
        is_made = a.kind;
        narrow = a.kind.short;
        wrote = a.wrote;
      }
  convert-Converted (binary n) fits is small enough =
      let a = (render_unsigned-Appends m result n t out w (omega arith) is).2 in
      record {
        out = a.out;
        made = a.text;
        ends = rw a.ends refl;
        is_made = a.kind;
        narrow = a.kind.short;
        wrote = a.wrote;
      }
  convert-Converted (char n) fits is small enough = record {
    out = put_char result out (n % 256);
    made = (n % 256) ∷ [];
    ends = refl;
    is_made = refl;
    narrow = omega arith;
    wrote = Wrote-put_char m result (n % 256) t out w (omega arith);
  }
  convert-Converted (text p s) fits is small enough =
      let (out', run, w') =
        render_string-Wrote m result limit fuel p s t out w fits room is.1 is.0 (enough p s refl) in
      record {
        out = out';
        made = s;
        ends = rw run refl;
        is_made = refl;
        narrow = omega arith;
        wrote = w';
      }
