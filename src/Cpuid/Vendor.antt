-- ===== src/Cpuid/Vendor.antt =====
-- src/cpuid.c: the name that fetchCpuid leaves.
use palley_os.Prelude.{
  ℕ, zero, suc, ◌+◌, ◌*◌, ◌/◌, ◌%◌, ◌^◌, ◌≤◌, ◌<◌, ◌≡◌, refl, sym, ap, ◌∙◌, some, List, [], ◌∷◌,
  ◌++◌, arith, ltb, if◌then◌else◌, set, length, length-append, All, u32_mod, Bool-cases, inl, inr,
  ltb→lt, false, ◌==◌,
}
use palley_os.Cpuid.{Cpuid, Processor, word_loop, word_rounds, fetch_cpuid}

-- The number that characters spell, the lowest first.
abbrev pub little_endian : List ℕ → ℕ
little_endian [] = 0
little_endian (b ∷ bs) = b + 256 * little_endian bs

-- The number of bytes of a word up to its last one that is not 0.
abbrev pub significant : ℕ → ℕ
significant w =
    if w == 0
    then 0
    else if ltb w (2 ^ 8)
    then 1
    else if ltb w (2 ^ 16)
    then 2
    else if ltb w (2 ^ 24)
    then 3
    else 4

-- The characters of a word, with no NUL behind the last.
pub record Spells (w : ℕ) (bs : List ℕ) : Type 0 where
  pub value : little_endian bs ≡ w
  pub bytes : All (λ b. b < 256) bs
  pub count : length bs ≡ significant w

-- Characters put one behind another, from an index on.
pub put_all : ℕ → List ℕ → List ℕ → List ℕ
put_all i [] vs = vs
put_all i (b ∷ bs) vs = put_all (i + 1) bs (set vs i b)

put_all-cons : (i x : ℕ) (bs vs : List ℕ) → put_all (suc i) bs (x ∷ vs) ≡ x ∷ put_all i bs vs
unfolding put_all
put_all-cons i x [] vs = refl
put_all-cons i x (b ∷ bs) vs =
    let e : suc i + 1 ≡ suc (i + 1) = omega arith in rw e (put_all-cons (i + 1) x bs (set vs i b))

-- As many characters as stand in front of the last one, and that one.
put_all-whole :
    (bs vs : List ℕ) (c : ℕ)
    → length vs ≡ length bs + 1
    → set (put_all 0 bs vs) (length bs) c ≡ bs ++ (c ∷ [])
unfolding put_all
put_all-whole bs [] c h = absurd (omega arith)
put_all-whole [] (x ∷ []) c h = refl
put_all-whole [] (x ∷ y ∷ vs) c h = absurd (omega arith)
put_all-whole (b ∷ bs) (x ∷ vs) c h =
    rw (put_all-cons 0 b bs vs) (ap (λ r. b ∷ r) (put_all-whole bs vs c (omega arith)))

put_all-append :
    (i j : ℕ) (bs cs vs : List ℕ)
    → j ≡ i + length bs
    → put_all i (bs ++ cs) vs ≡ put_all j cs (put_all i bs vs)
unfolding put_all
put_all-append i j [] cs vs e = ap (λ k. put_all k cs vs) (omega arith)
put_all-append i j (b ∷ bs) cs vs e = put_all-append (i + 1) j bs cs (set vs i b) (omega arith)

abbrev bound : ℕ → ℕ
bound zero = 1
bound (suc fuel) = 256 * bound fuel

bound-suc :
    (bs : List ℕ) (w : ℕ)
    → bound (length bs) ≤ 256 * (w / 2 ^ 8) + 1
    → 0 < w
    → 256 * bound (length bs) ≤ 256 * w + 1
bound-suc [] w low pos = omega arith
bound-suc (b ∷ bs) w low pos = omega arith

-- A loop with fuel for the characters of its word ends and puts them.
word_loop-ends :
    (fuel w i : ℕ) (vs : List ℕ)
    → w < bound fuel
    → (bs : List ℕ) × (word_loop (suc fuel) w i vs ≡ some (i + length bs, put_all i bs vs))
      × (little_endian bs ≡ w)
      × All (λ b. b < 256) bs
      × (length bs ≤ fuel)
      × (bound (length bs) ≤ 256 * w + 1)
unfolding word_loop put_all
word_loop-ends zero w i vs h =
    let none_left : ltb 0 w ≡ false = ground arith in
    (
      [],
      rw none_left (ap (λ k. some (k, vs)) (omega arith)),
      omega arith,
      tt,
      omega arith,
      omega arith,
    )
word_loop-ends (suc fuel) w i vs h = elim (Bool-cases (ltb 0 w)) [
  | inl more ↦
      let (bs, run, value, bytes, count, low) =
        word_loop-ends fuel (w / 2 ^ 8) (i + 1) (set vs i (w % 2 ^ 8)) (omega arith) in
      (
        (w % 2 ^ 8) ∷ bs,
        rw more (run ∙ ap (λ k. some (k, put_all (i + 1) bs (set vs i (w % 2 ^ 8)))) (omega arith)),
        omega arith,
        (omega arith, bytes),
        omega arith,
        bound-suc bs w low (ltb→lt _ _ more),
      )
  | inr done ↦ (
    [],
    rw done (ap (λ k. some (k, vs)) (omega arith)),
    ground arith,
    tt,
    omega arith,
    omega arith,
  )
]

little_endian-lt : (bs : List ℕ) → All (λ b. b < 256) bs → little_endian bs < bound (length bs)
little_endian-lt [] h = omega arith
little_endian-lt (b ∷ bs) h = let rest = little_endian-lt bs h.1 in omega arith

significant-eq : (n w : ℕ) → n ≤ 4 → w < bound n → bound n ≤ 256 * w + 1 → n ≡ significant w
significant-eq zero w h up low = ground arith
significant-eq (suc zero) w h up low = ground arith
significant-eq (suc (suc zero)) w h up low = ground arith
significant-eq (suc (suc (suc zero))) w h up low = ground arith
significant-eq (suc (suc (suc (suc zero)))) w h up low = ground arith
significant-eq (suc (suc (suc (suc (suc n))))) w h up low = absurd (omega arith)

word_loop-Spells :
    (w i : ℕ) (vs : List ℕ)
    → w < u32_mod
    → (bs : List ℕ) × Spells w bs
      × (word_loop word_rounds w i vs ≡ some (i + length bs, put_all i bs vs))
word_loop-Spells w i vs h =
    let (bs, run, value, bytes, count, low) = word_loop-ends 4 w i vs (omega arith) in
    (
      bs,
      record {
        value = value;
        bytes = bytes;
        count =
            significant-eq (length bs) w count (omega (arith, value, little_endian-lt bs bytes))
              low;
      },
      run,
    )

fetch-loops :
    (p : Processor) (c : Cpuid) (first second third : List ℕ) (i j k : ℕ)
    → word_loop word_rounds p.ebx 0 c.vendor_id ≡ some (i, first)
    → word_loop word_rounds p.edx i first ≡ some (j, second)
    → word_loop word_rounds p.ecx j second ≡ some (k, third)
    → fetch_cpuid p c ≡ some (record c { vendor_id = set third 12 0 })
unfolding fetch_cpuid
fetch-loops p c first second third i j k e1 e2 e3 = ground arith

-- fetchCpuid always ends: behind one another stand the characters of the three words, each without
-- the NULs at its end, over what the name was before, with a NUL as the thirteenth.
pub fetch_cpuid-Spells :
    (p : Processor) (c : Cpuid)
    → p.ebx < u32_mod
    → p.edx < u32_mod
    → p.ecx < u32_mod
    → (x : List ℕ) × (y : List ℕ) × (z : List ℕ) × Spells p.ebx x
      × Spells p.edx y
      × Spells p.ecx z
      × (fetch_cpuid p c
          ≡ some (record c { vendor_id = set (put_all 0 (x ++ (y ++ z)) c.vendor_id) 12 0 }))
fetch_cpuid-Spells p c hb hd hc =
    let (x, sx, first) = word_loop-Spells p.ebx 0 c.vendor_id hb in
    let one = put_all 0 x c.vendor_id in
    let (y, sy, second) = word_loop-Spells p.edx (0 + length x) one hd in
    let (z, sz, third) =
      word_loop-Spells p.ecx (0 + length x + length y) (put_all (0 + length x) y one) hc in
    let joined : put_all (0 + length x + length y) z (put_all (0 + length x) y one)
        ≡ put_all 0 (x ++ (y ++ z)) c.vendor_id =
      sym (
        put_all-append 0 (0 + length x) x (y ++ z) c.vendor_id (omega arith)
        ∙ put_all-append (0 + length x) (0 + length x + length y) y z one (omega arith)) in
    (
      x,
      y,
      z,
      sx,
      sy,
      sz,
      fetch-loops p c one (put_all (0 + length x) y one) _ (0 + length x) (0 + length x + length y)
          _ first second (third ∙ ap (λ r. some (0 + length x + length y + length z, r)) joined),
    )

-- Where no word has a 0 as its highest byte, the name is the twelve characters and a NUL.
pub fetch_cpuid-full :
    (p : Processor) (c : Cpuid)
    → 2 ^ 24 ≤ p.ebx
    → 2 ^ 24 ≤ p.edx
    → 2 ^ 24 ≤ p.ecx
    → p.ebx < u32_mod
    → p.edx < u32_mod
    → p.ecx < u32_mod
    → length c.vendor_id ≡ 13
    → (x : List ℕ) × (y : List ℕ) × (z : List ℕ) × Spells p.ebx x
      × Spells p.edx y
      × Spells p.ecx z
      × (fetch_cpuid p c ≡ some (record c { vendor_id = (x ++ (y ++ z)) ++ (0 ∷ []) }))
fetch_cpuid-full p c lb ld lc hb hd hc size =
    let (x, y, z, sx, sy, sz, run) = fetch_cpuid-Spells p c hb hd hc in
    let nx : length x ≡ 4 = ground (arith, sx.count) in
    let ny : length y ≡ 4 = ground (arith, sy.count) in
    let nz : length z ≡ 4 = ground (arith, sz.count) in
    let twelve : length (x ++ (y ++ z)) ≡ 12 =
      omega (arith, length-append x (y ++ z), length-append y z) in
    let whole : set (put_all 0 (x ++ (y ++ z)) c.vendor_id) 12 0 ≡ (x ++ (y ++ z)) ++ (0 ∷ []) =
      ap (λ n. set (put_all 0 (x ++ (y ++ z)) c.vendor_id) n 0) (sym twelve)
      ∙ put_all-whole (x ++ (y ++ z)) c.vendor_id 0 (omega arith) in
    (x, y, z, sx, sy, sz, run ∙ ap (λ n. some (record c { vendor_id = n })) whole)
