-- ===== src/Kstdio/Output.antt =====
-- What has been written to the result of kvsprintf: a text, from its start on.
use mathlib.Core.List.{append_assoc, append-nil}
use palley_os.Prelude.{
  ℕ, zero, suc, ◌+◌, ◌<◌, ◌≡◌, refl, ◌⊎◌, List, [], ◌∷◌, ◌++◌, map, arith, length, get_or,
  length-append, u32_mod,
}
use palley_os.Prelude.Memory.{Mem, store}
use palley_os.Kstdio.{Out, put_char, emit}

-- The text `t` stands at `result`, and no byte outside it and the one behind it differs from `m`.
pub record Wrote (m : Mem) (result : ℕ) (t : List ℕ) (out : Out) : Type 0 where
  pub count : out.result_i ≡ length t
  pub bytes : (i : ℕ) → i < length t → out.mem (result + i) ≡ get_or t i 0
  pub same : (a : ℕ) → (a < result) ⊎ (result + length t < a) → out.mem a ≡ m a

get_or-append_left : (t u : List ℕ) (i : ℕ) → i < length t → get_or (t ++ u) i 0 ≡ get_or t i 0
get_or-append_left [] u i h = absurd (omega arith)
get_or-append_left (x ∷ t) u zero h = refl
get_or-append_left (x ∷ t) u (suc i) h = get_or-append_left t u i (omega arith)

get_or-append_last : (t : List ℕ) (c : ℕ) → get_or (t ++ (c ∷ [])) (length t) 0 ≡ c
get_or-append_last [] c = refl
get_or-append_last (x ∷ t) c = get_or-append_last t c

pub Wrote-put_char :
    (m : Mem) (result c : ℕ) (t : List ℕ) (out : Out)
    → Wrote m result t out
    → length t + 1 < u32_mod
    → Wrote m result (t ++ (c ∷ [])) (put_char result out c)
unfolding put_char
Wrote-put_char m result c t out w small = record {
  count = omega (arith, w.count, length-append t (c ∷ []));
  bytes = λ i lt. ground (
    arith,
    w.count,
    w.bytes i,
    length-append t (c ∷ []),
    get_or-append_left t (c ∷ []) i,
    get_or-append_last t c,
  );
  same = λ a o. ground (arith, w.count, w.same a, length-append t (c ∷ []));
}

pub Wrote-emit :
    (m : Mem) (result : ℕ) (show : ℕ → ℕ) (ds t : List ℕ) (out : Out)
    → Wrote m result t out
    → length t + length ds < u32_mod
    → Wrote m result (t ++ map show ds) (emit result show ds out)
unfolding emit
Wrote-emit m result show [] t out w small = rw append-nil w
Wrote-emit m result show (d ∷ ds) t out w small =
    rw (← append_assoc t (show d ∷ []) (map show ds)) (
      Wrote-emit m result show ds (t ++ (show d ∷ [])) (put_char result out (show d))
        (Wrote-put_char m result (show d) t out w (omega arith))
        (omega (arith, length-append t (show d ∷ []))))

-- A NUL behind the text changes nothing that is recorded.
pub Wrote-nul :
    (m : Mem) (result : ℕ) (t : List ℕ) (out : Out)
    → Wrote m result t out
    → Wrote m result t (record out { mem = store out.mem (result + out.result_i) 0 })
Wrote-nul m result t out w = record {
  count = w.count;
  bytes = λ i lt. ground (arith, w.count, w.bytes i);
  same = λ a o. ground (arith, w.count, w.same a);
}
