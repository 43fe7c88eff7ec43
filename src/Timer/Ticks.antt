-- ===== src/Timer/Ticks.antt =====
-- pitSleep and the counters that run while it waits.
use palley_os.Prelude.{
  ℕ, zero, suc, ◌+◌, ◌%◌, ◌^◌, ◌≤◌, ◌<◌, ◌≡◌, refl, sym, ap, ◌∙◌, inl, inr, Bool, true, false,
  Option, none, some, List, [], ◌∷◌, arith, if◌then◌else◌, ==_ne, ◌≢◌, map, u32_mod, All, ◌⊎◌,
}
use palley_os.Ports.{Ports}
use palley_os.Timer.{Timer, PitCounter, tick, pit_irq, sleep_loop, pit_sleep}

-- A counter after `n` ticks.
abbrev pub ticked : ℕ → PitCounter → PitCounter
ticked n c = if c.active then record c { count = (c.count + n) % u32_mod } else c

abbrev running : ℕ → PitCounter
running k = record { active = true; count = k }

tick-ticked : (n : ℕ) (c : PitCounter) → ticked n (tick c) ≡ ticked (suc n) c
tick-ticked n c = go c.active c.count
  where
    go :
        (b : Bool) (k : ℕ)
        → ticked n (tick (record { active = b; count = k }))
          ≡ ticked (suc n) (record { active = b; count = k })
    go true k =
        let sum : ((k + 1) % u32_mod + n) % u32_mod ≡ (k + suc n) % u32_mod = omega arith in
        ap running sum
    go false k = refl

map-ticked : (n : ℕ) (cs : List PitCounter) → map (ticked n) (map tick cs) ≡ map (ticked (suc n)) cs
map-ticked n [] = refl
map-ticked n (c ∷ cs) =
    ap (λ x. x ∷ map (ticked n) (map tick cs)) (tick-ticked n c)
    ∙ ap (◌∷◌ (ticked (suc n) c)) (map-ticked n cs)

-- What `n` interrupts leave of the counters and of a sleep counter that is not negative.
map-ticked_zero : (cs : List PitCounter) → All (λ c. c.count < u32_mod) cs → map (ticked 0) cs ≡ cs
map-ticked_zero [] h = refl
map-ticked_zero (c ∷ cs) h =
    ap (λ x. x ∷ map (ticked 0) cs) (go c.active c.count h.0) ∙ ap (◌∷◌ c) (map-ticked_zero cs h.1)
  where
    go :
        (b : Bool) (k : ℕ)
        → k < u32_mod
        → ticked 0 (record { active = b; count = k }) ≡ record { active = b; count = k }
    go true k h = let same : (k + 0) % u32_mod ≡ k = omega arith in ap running same
    go false k h = refl

All-tick :
    (cs : List PitCounter)
    → All (λ c. c.count < u32_mod) cs
    → All (λ c. c.count < u32_mod) (map tick cs)
All-tick [] h = h
All-tick (c ∷ cs) h = (go c.active c.count h.0, All-tick cs h.1)
  where
    go :
        (b : Bool) (k : ℕ) → k < u32_mod → (tick (record { active = b; count = k })).count < u32_mod
    go true k h = omega arith
    go false k h = h

module _ (v : Ports) (handler : ℕ) where
  -- How a wait ends, from the counters at its start.
  abbrev pub Woken : ℕ → List PitCounter → Option (Timer v.State) → Type 0
  Woken n cs none = ⊥
  Woken n cs (some s) =
      (s.sleep_counter ≡ 0) × (s.interrupts ≡ false) × (s.pit_counters ≡ map (ticked n) cs)

  Woken-more :
      (n : ℕ) (cs : List PitCounter) (r : Option (Timer v.State))
      → Woken n (map tick cs) r
      → Woken (suc n) cs r
  Woken-more n cs none h = h
  Woken-more n cs (some s) h = (h.0, h.1, h.2 ∙ map-ticked n cs)

  irq-sleep :
      (s : Timer v.State) (n : ℕ)
      → s.sleep_counter ≡ suc n
      → suc n < 2 ^ 31
      → (pit_irq v handler s).sleep_counter ≡ n
  unfolding pit_irq
  irq-sleep s n e h = ground arith

  irq-negative :
      (s : Timer v.State)
      → 2 ^ 31 ≤ s.sleep_counter
      → (pit_irq v handler s).sleep_counter ≡ s.sleep_counter
  unfolding pit_irq
  irq-negative s h = ground arith

  loop-step :
      (irqs : ℕ) (s : Timer v.State)
      → s.sleep_counter ≢ 0
      → sleep_loop v handler (suc irqs) s ≡ sleep_loop v handler irqs (pit_irq v handler s)
  unfolding sleep_loop
  loop-step irqs s ne =
      ap
        (λ (b : Bool).
          if b
          then some (record s { interrupts = false })
          else sleep_loop v handler irqs (pit_irq v handler s))
        (==_ne s.sleep_counter 0 ne)

  loop-wakes :
      (irqs : ℕ) (s : Timer v.State)
      → s.sleep_counter ≡ 0
      → All (λ c. c.count < u32_mod) s.pit_counters
      → Woken 0 s.pit_counters (sleep_loop v handler irqs s)
  unfolding sleep_loop
  loop-wakes zero s e cs = rw e (refl, refl, sym (map-ticked_zero s.pit_counters cs))
  loop-wakes (suc irqs) s e cs = rw e (refl, refl, sym (map-ticked_zero s.pit_counters cs))

  sleep_loop-Woken :
      (irqs n : ℕ) (s : Timer v.State)
      → s.sleep_counter ≡ n
      → n < 2 ^ 31
      → n ≤ irqs
      → All (λ c. c.count < u32_mod) s.pit_counters
      → Woken n s.pit_counters (sleep_loop v handler irqs s)
  unfolding pit_irq
  sleep_loop-Woken irqs zero s e h le cs = loop-wakes irqs s e cs
  sleep_loop-Woken zero (suc n) s e h le cs = absurd (omega arith)
  sleep_loop-Woken (suc irqs) (suc n) s e h le cs =
      let next = pit_irq v handler s in
      let rest =
        sleep_loop-Woken irqs n next (irq-sleep s n e h) (omega arith) (omega arith)
          (All-tick s.pit_counters cs) in
      rw (loop-step irqs s (omega arith))
        (Woken-more n s.pit_counters (sleep_loop v handler irqs next) rest)

  sleep_loop-waits :
      (irqs n : ℕ) (s : Timer v.State)
      → s.sleep_counter ≡ n
      → (irqs < n × n < 2 ^ 31) ⊎ (2 ^ 31 ≤ n)
      → sleep_loop v handler irqs s ≡ none
  unfolding sleep_loop
  sleep_loop-waits zero n s e h = ground arith
  sleep_loop-waits (suc irqs) zero s e h = absurd (omega arith)
  sleep_loop-waits (suc irqs) (suc n) s e (inl h) =
      loop-step irqs s (omega arith)
      ∙ sleep_loop-waits irqs n (pit_irq v handler s) (irq-sleep s n e h.1)
          (inl (omega (arith, h.0), omega (arith, h.1)))
  sleep_loop-waits (suc irqs) (suc n) s e (inr h) =
      loop-step irqs s (omega arith)
      ∙ sleep_loop-waits irqs (suc n) (pit_irq v handler s) (irq-negative s (rw e h) ∙ e) (inr h)

  -- pitSleep, for a number of milliseconds below 2^31 and counters of 32 bits: with that many timer
  -- interrupts or more to come it returns; the sleep counter is then 0, interrupts are off, and each
  -- active counter has advanced by that number, modulo 2^32, while the inactive ones are unchanged.
  -- With fewer interrupts it does not return.
  pub pit_sleep-Woken :
      (irqs num_millis : ℕ) (s : Timer v.State)
      → num_millis < 2 ^ 31
      → All (λ c. c.count < u32_mod) s.pit_counters
      → (num_millis ≤ irqs
          → Woken num_millis s.pit_counters (pit_sleep v handler irqs num_millis s))
        × (irqs < num_millis → pit_sleep v handler irqs num_millis s ≡ none)
  unfolding pit_sleep
  pit_sleep-Woken irqs n s h cs =
      let start = record s { sleep_counter = n % u32_mod } in
      (
        λ le. sleep_loop-Woken irqs n start (omega arith) h le cs,
        λ lt. sleep_loop-waits irqs n start (omega arith) (inl (lt, h)),
      )

  -- pitSleep: for 2^31 milliseconds or more, up to the 32 bits of the argument, no number of timer
  -- interrupts ends the wait.
  pub pit_sleep-forever :
      (irqs num_millis : ℕ) (s : Timer v.State)
      → 2 ^ 31 ≤ num_millis
      → num_millis < u32_mod
      → pit_sleep v handler irqs num_millis s ≡ none
  unfolding pit_sleep
  pit_sleep-forever irqs n s h lt =
      sleep_loop-waits irqs n (record s { sleep_counter = n % u32_mod }) (omega arith) (inr h)
