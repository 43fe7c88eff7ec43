-- ===== src/Timer/Tests.antt =====
-- A timer of 50 counters, the first of which runs.
use palley_os.Prelude.{
  ℕ, zero, suc, ◌≤◌, ◌<◌, ◌≡◌, refl, true, false, none, some, [], ◌∷◌, arith, get_elem?, replicate,
  set, u32_mod, All,
}
use palley_os.Ports.{latches}
use palley_os.Timer.{
  Timer, PitCounter, is_error, success, success_count, pit_out_of_range, pit_sleep,
  pit_get_counter_count, pit_reset_counter, pit_deactivate_counter, pit_add_counter,
}
use palley_os.Timer.Ticks.{Woken, pit_sleep-Woken}
use palley_os.Timer.Counters.{Adds, counter_calls, pit_add_counter-Adds}

abbrev idle : PitCounter
idle = record { active = false; count = 0 }

abbrev timer : Timer latches.State
timer = record {
  pit_initialized = true;
  frequency = 1000;
  pit_counters = record { active = true; count = 5 } ∷ replicate 49 idle;
  sleep_counter = 0;
  interrupts = true;
  idt_entries = [];
  devices = λ port. 0;
}

-- The idle counters have 32 bits.
small_idle : (n : ℕ) → All (λ c. c.count < u32_mod) (replicate n idle)
small_idle zero = tt
small_idle (suc n) = (omega arith, small_idle n)

pit_sleep-Woken_example :
    (3 ≤ 4 → Woken latches 0 3 timer.pit_counters (pit_sleep latches 0 4 3 timer))
    × (4 < 3 → pit_sleep latches 0 4 3 timer ≡ none)
pit_sleep-Woken_example =
    pit_sleep-Woken latches 0 4 3 timer (omega arith) (omega arith, small_idle 49)

counter_calls_example :
    ((c : PitCounter)
      → get_elem? timer.pit_counters 0 ≡ some c
      → (pit_get_counter_count latches 0 0 timer ≡ some (success_count c.count, timer))
        × (pit_reset_counter latches 0 0 timer
            ≡ some (
              success,
              record timer { pit_counters = set timer.pit_counters 0 (record c { count = 0 }) },
            ))
        × (pit_deactivate_counter latches 0 0 timer
            ≡ some (
              success,
              record timer {
                pit_counters = set timer.pit_counters 0 (record { active = false; count = 0 });
              },
            )))
    × (50 < 0
        → (pit_get_counter_count latches 0 0 timer ≡ some (is_error pit_out_of_range, timer))
          × (pit_reset_counter latches 0 0 timer ≡ some (is_error pit_out_of_range, timer))
          × (pit_deactivate_counter latches 0 0 timer ≡ some (is_error pit_out_of_range, timer)))
    × (◌≡◌ {A = ℕ} 0 50
        → (pit_get_counter_count latches 0 0 timer ≡ none)
          × (pit_reset_counter latches 0 0 timer ≡ none)
          × (pit_deactivate_counter latches 0 0 timer ≡ none))
counter_calls_example = counter_calls latches 0 timer refl 0 refl

-- The second counter is the first that is idle.
pit_add_counter-Adds_example :
    let r = pit_add_counter latches 0 timer in Adds timer.pit_counters r.0 r.1.pit_counters
pit_add_counter-Adds_example = pit_add_counter-Adds latches 0 timer refl
