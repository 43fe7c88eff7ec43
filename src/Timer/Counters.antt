-- ===== src/Timer/Counters.antt =====
-- The calls on counters, on an initialised timer.
use palley_os.Prelude.{
  ℕ, zero, suc, ◌+◌, ◌≤◌, ◌<◌, ◌≡◌, refl, sym, ap, ◌∙◌, Bool, true, false, Option, none, some, List,
  [], ◌∷◌, arith, ltb, if◌then◌else◌, length, get_elem?, set,
}
use mathlib.Core.Path.{subst}
use palley_os.Ports.{Ports}
use palley_os.Timer.{
  Timer, PitCounter, PitResult, is_error, success, success_id, success_count, pit_counters_full,
  pit_out_of_range, find_inactive, claim_counter, with_counter, ensure_initialized, init_pit_timer,
  zeroed, pit_add_counter, pit_deactivate_counter, pit_get_counter_count, pit_reset_counter,
  pit_num_counters,
}

-- What the loop of pitAddCounter answers about the counters, the first of which has number `i`.
abbrev FirstInactive : List PitCounter → ℕ → Option ℕ → Type 0
FirstInactive cs i none = (k : ℕ) (c : PitCounter) → get_elem? cs k ≡ some c → c.active ≡ true
FirstInactive cs i (some n) =
    (k : ℕ) × (c : PitCounter) × (n ≡ i + k)
    × (get_elem? cs k ≡ some c)
    × (c.active ≡ false)
    × ((j : ℕ) (e : PitCounter) → j < k → get_elem? cs j ≡ some e → e.active ≡ true)

abbrev off : PitCounter
off = record { active = false; count = 0 }

some-eq {ℓ} : {A : Type ℓ} {a b : A} → some a ≡ some b → a ≡ b
some-eq e = cc

after :
    (c : PitCounter) (cs : List PitCounter) (i : ℕ) (o : Option ℕ)
    → c.active ≡ true
    → FirstInactive cs (i + 1) o
    → FirstInactive (c ∷ cs) i o
after c cs i none a f = go
  where
    go : (k : ℕ) (e : PitCounter) → get_elem? (c ∷ cs) k ≡ some e → e.active ≡ true
    go zero e h = ap (λ (x : PitCounter). x.active) (sym (some-eq h)) ∙ a
    go (suc k) e h = f k e h
after c cs i (some n) a (k, e, same, at, off, before) = (suc k, e, omega arith, at, off, go)
  where
    go : (j : ℕ) (e : PitCounter) → j < suc k → get_elem? (c ∷ cs) j ≡ some e → e.active ≡ true
    go zero e lt h = ap (λ (x : PitCounter). x.active) (sym (some-eq h)) ∙ a
    go (suc j) e lt h = before j e (omega arith) h

first_here :
    (b : Bool) (c : PitCounter) (cs : List PitCounter) (i : ℕ)
    → c.active ≡ b
    → FirstInactive cs (i + 1) (find_inactive cs (i + 1))
    → FirstInactive (c ∷ cs) i (if b then find_inactive cs (i + 1) else some i)
first_here true c cs i on rest = after c cs i (find_inactive cs (i + 1)) on rest
first_here false c cs i off rest = (0, c, omega arith, refl, off, λ j e lt h. absurd (omega arith))

find_inactive-First : (cs : List PitCounter) (i : ℕ) → FirstInactive cs i (find_inactive cs i)
unfolding find_inactive
find_inactive-First [] i = λ k c h. cc
find_inactive-First (c ∷ cs) i = first_here c.active c cs i refl (find_inactive-First cs (i + 1))

-- What pitAddCounter does to the counters.
abbrev pub Adds : List PitCounter → PitResult → List PitCounter → Type 0
Adds cs (is_error e) cs' =
    (e ≡ pit_counters_full)
    × (cs' ≡ cs)
    × ((k : ℕ) (c : PitCounter) → get_elem? cs k ≡ some c → c.active ≡ true)
Adds cs success cs' = ⊥
Adds cs (success_count n) cs' = ⊥
Adds cs (success_id n) cs' =
    (c : PitCounter) × (get_elem? cs n ≡ some c)
    × (c.active ≡ false)
    × (cs' ≡ set cs n (record c { active = true }))
    × ((j : ℕ) (e : PitCounter) → j < n → get_elem? cs j ≡ some e → e.active ≡ true)

get_elem?-lt : {A : Type 0} (xs : List A) (i : ℕ) (x : A) → get_elem? xs i ≡ some x → i < length xs
get_elem?-lt [] i x h = cc
get_elem?-lt (y ∷ xs) zero x h = omega arith
get_elem?-lt (y ∷ xs) (suc i) x h = omega (arith, get_elem?-lt xs i x h)

set-get : {A : Type 0} (xs : List A) (i : ℕ) (x : A) → get_elem? xs i ≡ some x → set xs i x ≡ xs
set-get [] i x h = refl
set-get (y ∷ xs) zero x h = ap (λ z. z ∷ xs) (sym (some-eq h))
set-get (y ∷ xs) (suc i) x h = ap (◌∷◌ y) (set-get xs i x h)

get_elem?-end : {A : Type 0} (xs : List A) (i : ℕ) → length xs ≤ i → get_elem? xs i ≡ none
get_elem?-end [] i h = refl
get_elem?-end (y ∷ xs) zero h = absurd (omega arith)
get_elem?-end (y ∷ xs) (suc i) h = get_elem?-end xs i (omega arith)

module _ (v : Ports) (handler : ℕ) where
  claim_none :
      (s : Timer v.State)
      → find_inactive s.pit_counters 0 ≡ none
      → claim_counter v handler s ≡ (is_error pit_counters_full, s)
  unfolding claim_counter
  claim_none s e = rw (e, claim_counter) refl

  claim_some :
      (s : Timer v.State) (n : ℕ) (c : PitCounter)
      → find_inactive s.pit_counters 0 ≡ some n
      → get_elem? s.pit_counters n ≡ some c
      → claim_counter v handler s ≡ (
        success_id n,
        record s { pit_counters = set s.pit_counters n (record c { active = true }) },
      )
  unfolding claim_counter
  claim_some s n c e at = rw (e, at, claim_counter) refl

  abbrev AddsFrom : Timer v.State → PitResult × Timer v.State → Type 0
  AddsFrom s r = Adds s.pit_counters r.0 r.1.pit_counters

  claimed :
      (s : Timer v.State) (o : Option ℕ)
      → find_inactive s.pit_counters 0 ≡ o
      → FirstInactive s.pit_counters 0 o
      → AddsFrom s (claim_counter v handler s)
  claimed s none e f = subst (AddsFrom s) (sym (claim_none s e)) (refl, refl, f)
  claimed s (some n) e (k, c, same, at, idle, before) =
      let place : n ≡ k = omega (arith, same) in
      let here : get_elem? s.pit_counters n ≡ some c = rw place at in
      subst (AddsFrom s) (sym (claim_some s n c e here)) (c, here, idle, refl, rw place before)

  here :
      (s : Timer v.State) (n : ℕ) (change : PitCounter → PitCounter)
      (answer : PitCounter → PitResult) (c : PitCounter)
      → n < 50
      → get_elem? s.pit_counters n ≡ some c
      → with_counter v handler n change answer s
        ≡ some (answer c, record s { pit_counters = set s.pit_counters n (change c) })
  here s n change answer c h at =
      let inside : ltb 50 n ≡ false = ground arith in rw (inside, at) refl

  beyond :
      (s : Timer v.State) (n : ℕ) (change : PitCounter → PitCounter)
      (answer : PitCounter → PitResult)
      → 50 < n
      → with_counter v handler n change answer s ≡ some (is_error pit_out_of_range, s)
  beyond s n change answer h = let outside : ltb 50 n ≡ true = ground arith in rw outside refl

  at_end :
      (s : Timer v.State) (n : ℕ) (change : PitCounter → PitCounter)
      (answer : PitCounter → PitResult)
      → n ≡ 50
      → length s.pit_counters ≡ 50
      → with_counter v handler n change answer s ≡ none
  at_end s n change answer e long =
      let inside : ltb 50 n ≡ false = ground arith in
      rw (inside, get_elem?-end s.pit_counters n (omega arith)) refl

module _ (v : Ports) (handler : ℕ) (s : Timer v.State) (ready : s.pit_initialized ≡ true) where
  same : ensure_initialized v handler s ≡ s
  same = ap (λ (b : Bool). if b then s else init_pit_timer v handler s) ready

  -- pitAddCounter, on an initialised timer: it gives the first counter that is not active and makes
  -- it active, changing nothing else of the counters; it reports that the counters are full only
  -- where every counter is active, and then changes none.
  pub pit_add_counter-Adds :
      let r = pit_add_counter v handler s in Adds s.pit_counters r.0 r.1.pit_counters
  unfolding pit_add_counter
  pit_add_counter-Adds = rw same (
      claimed v handler s (find_inactive s.pit_counters 0) refl
        (find_inactive-First s.pit_counters 0))

  -- The three calls on a counter's number, on an initialised timer: for a counter of the array the
  -- count is reported, or it is set to 0, or the counter is made inactive with count 0; a number
  -- above 50 is out of range; the number 50, where the array has 50 counters, passes the check and
  -- leaves the array.
  pub counter_calls :
      (counter_id : ℕ)
      → length s.pit_counters ≡ pit_num_counters
      → ((c : PitCounter)
          → get_elem? s.pit_counters counter_id ≡ some c
          → (pit_get_counter_count v handler counter_id s ≡ some (success_count c.count, s))
            × (pit_reset_counter v handler counter_id s
                ≡ some (
                  success,
                  record s {
                    pit_counters = set s.pit_counters counter_id (record c { count = 0 });
                  },
                ))
            × (pit_deactivate_counter v handler counter_id s
                ≡ some (
                  success,
                  record s {
                    pit_counters =
                        set s.pit_counters counter_id (record { active = false; count = 0 });
                  },
                )))
        × (50 < counter_id
            → (pit_get_counter_count v handler counter_id s ≡ some (is_error pit_out_of_range, s))
              × (pit_reset_counter v handler counter_id s ≡ some (is_error pit_out_of_range, s))
              × (pit_deactivate_counter v handler counter_id s
                  ≡ some (is_error pit_out_of_range, s)))
        × (counter_id ≡ 50
            → (pit_get_counter_count v handler counter_id s ≡ none)
              × (pit_reset_counter v handler counter_id s ≡ none)
              × (pit_deactivate_counter v handler counter_id s ≡ none))
  unfolding pit_get_counter_count pit_reset_counter pit_deactivate_counter
  counter_calls n long = (
    λ c at.
        let small : n < 50 = omega (arith, get_elem?-lt s.pit_counters n c at) in
        (
          ap (with_counter v handler n (λ c. c) (λ c. success_count c.count)) same
              ∙ here v handler s n (λ c. c) (λ c. success_count c.count) c small at
              ∙ ap (λ cs. some (success_count c.count, record s { pit_counters = cs }))
                  (set-get s.pit_counters n c at),
          ap (with_counter v handler n zeroed (λ c. success)) same
              ∙ here v handler s n zeroed (λ c. success) c small at,
          ap (with_counter v handler n (λ c. off) (λ c. success)) same
              ∙ here v handler s n (λ c. off) (λ c. success) c small at,
        ),
    λ h. (
      ap (with_counter v handler n (λ c. c) (λ c. success_count c.count)) same
          ∙ beyond v handler s n (λ c. c) (λ c. success_count c.count) h,
      ap (with_counter v handler n zeroed (λ c. success)) same
          ∙ beyond v handler s n zeroed (λ c. success) h,
      ap (with_counter v handler n (λ c. off) (λ c. success)) same
          ∙ beyond v handler s n (λ c. off) (λ c. success) h,
    ),
    λ e. (
      ap (with_counter v handler n (λ c. c) (λ c. success_count c.count)) same
          ∙ at_end v handler s n (λ c. c) (λ c. success_count c.count) e long,
      ap (with_counter v handler n zeroed (λ c. success)) same
          ∙ at_end v handler s n zeroed (λ c. success) e long,
      ap (with_counter v handler n (λ c. off) (λ c. success)) same
          ∙ at_end v handler s n (λ c. off) (λ c. success) e long,
    ),
  )
