-- ===== src/Keyboard/Queue.antt =====
-- The queue as a bounded queue of codes.
use palley_os.Prelude.{
  ℕ, zero, suc, ◌+◌, ◌-◌, ◌%◌, ◌<◌, ◌≡◌, refl, ap, ◌∙◌, ◌⊎◌, inl, inr, Bool-cases, true, false,
  List, [], ◌∷◌, ◌++◌, arith, ◌==◌, length, get_or, set, get_or-set_self, get_or-set_ne,
}
use palley_os.Keyboard.{Keyboard, keyboard_interrupt_handler, kb_has_new_input, next_code}

-- The codes of the queue from an index on.
abbrev pub codes : List ℕ → ℕ → ℕ → List ℕ
codes queue i zero = []
codes queue i (suc n) = get_or queue i 0 ∷ codes queue ((i + 1) % 256) n

abbrev pub waiting : Keyboard → ℕ
waiting s = (s.queue_widx + 256 - s.queue_ridx) % 256

-- The codes that have arrived and have not been read, the oldest first.
abbrev pub pending : Keyboard → List ℕ
pending s = codes s.scancode_queue s.queue_ridx (waiting s)

abbrev pub IsKeyboard : Keyboard → Type 0
IsKeyboard s =
    (length s.scancode_queue ≡ 256)
    × (s.queue_widx < 256)
    × (s.queue_ridx < 256)
    × (length s.key_states ≡ 256)

length-codes : (queue : List ℕ) (i n : ℕ) → length (codes queue i n) ≡ n
length-codes queue i zero = refl
length-codes queue i (suc n) = ap suc (length-codes queue ((i + 1) % 256) n)

-- A write behind the codes appends one.
codes-set :
    (queue : List ℕ) (i n w code : ℕ)
    → length queue ≡ 256
    → i < 256
    → n < 256
    → w ≡ (i + n) % 256
    → codes (set queue w code) i (suc n) ≡ codes queue i n ++ (code ∷ [])
codes-set queue i zero w code long hi hn e =
    let same : w ≡ i = omega arith in
    ap (λ x. x ∷ []) (rw same (get_or-set_self queue i code 0 (omega arith)))
codes-set queue i (suc n) w code long hi hn e =
    ap (λ x. x ∷ codes (set queue w code) ((i + 1) % 256) (suc n))
      (get_or-set_ne queue w i code 0 (omega arith))
    ∙ ap (◌∷◌ (get_or queue i 0))
        (codes-set queue ((i + 1) % 256) n w code long (omega arith) (omega arith) (omega arith))

-- The keyboard interrupt, with fewer than 255 codes in the queue: the code that arrives is the last
-- of the codes to read, behind those that were there. With 255 of them it leaves the queue empty,
-- so that all 256 codes are lost.
pub keyboard_interrupt_handler-pending :
    (scan_code : ℕ) (s : Keyboard)
    → IsKeyboard s
    → (length (pending s) < 255
        → pending (keyboard_interrupt_handler scan_code s) ≡ pending s ++ (scan_code ∷ []))
      × (length (pending s) ≡ 255
          → (pending (keyboard_interrupt_handler scan_code s) ≡ [])
            × (kb_has_new_input (keyboard_interrupt_handler scan_code s) ≡ false))
unfolding keyboard_interrupt_handler kb_has_new_input
keyboard_interrupt_handler-pending code s h =
    let long = length-codes s.scancode_queue s.queue_ridx (waiting s) in
    (
      λ few.
          let n : waiting (keyboard_interrupt_handler code s) ≡ suc (waiting s) =
            omega (arith, long, h.1, h.2) in
          ap (codes (set s.scancode_queue s.queue_widx code) s.queue_ridx) n
          ∙ codes-set s.scancode_queue s.queue_ridx (waiting s) s.queue_widx code h.0 h.2
              (omega arith) (omega (arith, h.1, h.2)),
      λ full.
          let n : waiting (keyboard_interrupt_handler code s) ≡ 0 = omega (arith, long, h.1, h.2) in
          (
            ap (codes (set s.scancode_queue s.queue_widx code) s.queue_ridx) n,
            ground (arith, n, h.1, h.2),
          ),
    )

-- Reading a code: there is one to read exactly where codes wait, the oldest is read, and the others
-- still wait, in their order; the indices stay in the queue.
pub next_code-pending :
    (s : Keyboard)
    → IsKeyboard s
    → ((kb_has_new_input s ≡ false) × (pending s ≡ []))
      ⊎ ((kb_has_new_input s ≡ true)
          × (pending s ≡ (next_code s).0 ∷ pending (next_code s).1)
          × IsKeyboard (next_code s).1)
unfolding next_code kb_has_new_input
next_code-pending s h = elim (Bool-cases (s.queue_ridx == s.queue_widx)) [
  | inl e ↦
      let n : waiting s ≡ 0 = ground (arith, h.1, h.2) in
      inl (rw e refl, ap (codes s.scancode_queue s.queue_ridx) n)
  | inr e ↦
      let n : waiting s ≡ suc (waiting (next_code s).1) = ground (arith, h.1, h.2) in
      inr (rw e refl, ap (codes s.scancode_queue s.queue_ridx) n, (h.0, h.1, omega arith, h.3))
]
