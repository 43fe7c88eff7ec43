-- ===== src/Keyboard/Cells.antt =====
-- src/keyboard_io.c: the buffer of the line editor as a list, with a character put in or taken out.
use palley_os.Prelude.{
  ℕ, zero, suc, ◌+◌, ◌-◌, ◌≤◌, ◌<◌, ◌==◌, ltb, if◌then◌else◌, get_or, List, [], ◌∷◌, length, ◌≡◌,
  refl, ◌∙◌, arith, inl, inr, Bool-cases,
}
use palley_os.Prelude.Memory.{Mem, store}
use palley_os.Console.Edit.{move_left_loop, move_right_loop, move_left_loop-at, move_right_loop-at}

abbrev pub insert_at : ℕ → ℕ → List ℕ → List ℕ
insert_at zero r xs = r ∷ xs
insert_at (suc i) r [] = r ∷ []
insert_at (suc i) r (x ∷ xs) = x ∷ insert_at i r xs

abbrev pub remove_at : ℕ → List ℕ → List ℕ
remove_at i [] = []
remove_at zero (x ∷ xs) = xs
remove_at (suc i) (x ∷ xs) = x ∷ remove_at i xs

pub length-insert_at : (i r : ℕ) (xs : List ℕ) → length (insert_at i r xs) ≡ length xs + 1
length-insert_at zero r xs = omega arith
length-insert_at (suc i) r [] = refl
length-insert_at (suc i) r (x ∷ xs) = omega (arith, length-insert_at i r xs)

pub length-remove_at :
    (i : ℕ) (xs : List ℕ) → i < length xs → length (remove_at i xs) + 1 ≡ length xs
length-remove_at i [] h = absurd (omega arith)
length-remove_at zero (x ∷ xs) h = omega arith
length-remove_at (suc i) (x ∷ xs) h = omega (arith, length-remove_at i xs (omega arith))

pub get_or-insert_at :
    (i r : ℕ) (xs : List ℕ) (j : ℕ)
    → i ≤ length xs
    → get_or (insert_at i r xs) j 0
      ≡ (if ltb j i then get_or xs j 0 else if j == i then r else get_or xs (j - 1) 0)
get_or-insert_at zero r xs zero h = ground arith
get_or-insert_at zero r xs (suc j) h =
    let same : suc j - 1 ≡ j = omega arith in rw same (ground arith)
get_or-insert_at (suc i) r [] j h = absurd (omega arith)
get_or-insert_at (suc i) r (x ∷ xs) zero h = ground arith
get_or-insert_at (suc i) r (x ∷ xs) (suc zero) h =
    get_or-insert_at i r xs zero (omega arith) ∙ ground arith
get_or-insert_at (suc i) r (x ∷ xs) (suc (suc j)) h =
    let before : suc j - 1 ≡ j = omega arith in
    let same : suc (suc j) - 1 ≡ suc j = omega arith in
    get_or-insert_at i r xs (suc j) (omega arith) ∙ rw (before, same) (ground arith)

pub get_or-length : (xs : List ℕ) → get_or xs (length xs) 0 ≡ 0
get_or-length [] = refl
get_or-length (x ∷ xs) = get_or-length xs

pub get_or-remove_at :
    (i : ℕ) (xs : List ℕ) (j : ℕ)
    → i < length xs
    → get_or (remove_at i xs) j 0 ≡ (if ltb j i then get_or xs j 0 else get_or xs (j + 1) 0)
get_or-remove_at i [] j h = absurd (omega arith)
get_or-remove_at zero (x ∷ xs) j h =
    let same : j + 1 ≡ suc j = omega arith in rw same (ground arith)
get_or-remove_at (suc i) (x ∷ xs) zero h = ground arith
get_or-remove_at (suc i) (x ∷ xs) (suc j) h =
    let same : suc j + 1 ≡ suc (j + 1) = omega arith in
    get_or-remove_at i xs j (omega arith) ∙ rw same (ground arith)

-- The cells of a buffer that spells `f` up to its NUL, when a character has been put in.
pub inserted :
    (m : Mem) (b at n ret i : ℕ) (f : ℕ → ℕ)
    → ((k : ℕ) → k ≤ n → m (b + k) ≡ f k)
    → f n ≡ 0
    → at ≤ n
    → i ≤ n + 1
    → store
        (store (if at == n then m else move_right_loop (n + 1 - at) (b + at) m) (b + at) ret)
        (b + (n + 1))
        0
        (b + i)
      ≡ (if ltb i at then f i else if i == at then ret else f (i - 1))
inserted m b at n ret i f same nul inside below = elim (Bool-cases (at == n)) [
  | inl end ↦ rw end (elim (Bool-cases (i == n + 1)) [
    | inl last ↦ let back : i - 1 ≡ n = ground arith in rw back (ground (arith, nul))
    | inr other ↦ ground (arith, same i)
  ])
  | inr middle ↦
      rw (middle, move_right_loop-at (n + 1 - at) (b + at) m (b + i))
        (elim (Bool-cases (i == n + 1)) [
          | inl last ↦ let back : i - 1 ≡ n = ground arith in rw back (ground (arith, nul))
          | inr other ↦ elim (Bool-cases (i == 0)) [
            | inl first ↦ ground (arith, same i)
            | inr next ↦
                let back : b + i - 1 ≡ b + (i - 1) = ground arith in
                rw back (ground (arith, same i, same (i - 1)))
          ]
        ])
]

-- The same when a character has been taken out.
pub deleted :
    (m : Mem) (b at n i : ℕ) (f : ℕ → ℕ)
    → ((k : ℕ) → k ≤ n → m (b + k) ≡ f k)
    → f n ≡ 0
    → 0 < at
    → at ≤ n
    → i + 1 ≤ n
    → store
        (if at == n then m else move_left_loop (n - (at - 1)) (b + (at - 1)) m)
        (b + (n - 1))
        0
        (b + i)
      ≡ (if ltb i (at - 1) then f i else f (i + 1))
deleted m b at n i f same nul positive inside below = elim (Bool-cases (i == n - 1)) [
  | inl last ↦ let next : i + 1 ≡ n = ground arith in rw next (ground (arith, nul))
  | inr other ↦ elim (Bool-cases (at == n)) [
    | inl end ↦ rw end (ground (arith, same i))
    | inr middle ↦
        let next : b + i + 1 ≡ b + (i + 1) = omega arith in
        rw (middle, move_left_loop-at (n - (at - 1)) (b + (at - 1)) m (b + i), next)
          (ground (arith, same i, same (i + 1)))
  ]
]
