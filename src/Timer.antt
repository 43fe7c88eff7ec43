-- ===== src/Timer.antt =====
-- src/timer/timer.c: the PIT's counters and the sleep counter. The interrupt handler is a step of
-- its own; a call that leaves the array of counters has no result. The frequency, the counters and
-- the sleep counter are 32 bits wide.
pub mod Ticks
pub mod Counters
mod Tests
use Prim.Native.Nat.{bit_or}
use palley_os.Prelude.{
  ℕ, zero, suc, ◌+◌, ◌-◌, ◌*◌, ◌/◌, ◌%◌, ◌^◌, Bool, true, false, not, ◌&&◌, Option, none, some,
  List, [], ◌∷◌, ◌==◌, ltb, leb, if◌then◌else◌, length, get_elem?, set, map, replicate, u32_mod,
}
use palley_os.Ports.{Ports}
use palley_os.Idt.{IdtEntry, idt_add_isr, interrupt_gate_32}

abbrev pub pit_num_counters : ℕ
pit_num_counters = 50

pub record PitCounter : Type 0 where
  pub active : Bool
  pub count : ℕ

pub data PitError : Type 0 where
  pit_counters_full pit_out_of_range : PitError

-- PITResult: the error, or the member of the union that the call sets.
pub data PitResult : Type 0 where
  is_error : PitError → PitResult
  success : PitResult
  success_id : ℕ → PitResult
  success_count : ℕ → PitResult

-- The file's static variables, whether interrupts are on, the table that idt_add_isr changes and
-- the devices.
pub record Timer (D : Type 0) : Type 0 where
  pub pit_initialized : Bool
  pub frequency : ℕ
  pub pit_counters : List PitCounter
  pub sleep_counter : ℕ
  pub interrupts : Bool
  pub idt_entries : List IdtEntry
  pub devices : D

abbrev pub tick : PitCounter → PitCounter
tick c = if c.active then record c { count = (c.count + 1) % u32_mod } else c

-- `pit_counters[counter_id].count = 0`
abbrev pub zeroed : PitCounter → PitCounter
zeroed c = record c { count = 0 }

-- The first counter from `i` on that is not active.
unfoldable pub find_inactive : List PitCounter → ℕ → Option ℕ
find_inactive [] i = none
find_inactive (c ∷ counters) i =
    let rest = find_inactive counters (i + 1) in if c.active then rest else some i

module _ (v : Ports) (handler : ℕ) where
  abbrev pub S : Type 0
  S = Timer v.State

  -- sleep_counter is signed: it counts down while it is above 0.
  unfoldable pub pit_irq : S → S
  pit_irq s = record s {
    pit_counters = map tick s.pit_counters;
    sleep_counter =
        if ltb 0 s.sleep_counter && ltb s.sleep_counter (2 ^ 31)
        then s.sleep_counter - 1
        else s.sleep_counter;
    devices = v.outb 0xa0 0x20 (v.outb 0x20 0x20 s.devices);
  }

  -- `count & 0xff` and `(count & 0xff00) >> 8` of a uint16_t are its bytes. Interrupts are on when
  -- either of the two returns.
  unfoldable pub read_pit_count : S → ℕ × S
  read_pit_count s =
      let (low, d) = v.inb 0x40 (v.outb 0x43 0 s.devices) in
      let (high, d') = v.inb 0x40 d in
      (bit_or low (high * 2 ^ 8) % 2 ^ 16, record s { devices = d'; interrupts = true })

  unfoldable pub set_pit_count : ℕ → S → S
  set_pit_count count s = record s {
    devices = v.outb 0x40 (count / 2 ^ 8 % 2 ^ 8) (v.outb 0x40 (count % 2 ^ 8) s.devices);
    interrupts = true;
  }

  unfoldable pub init_pit_timer : S → S
  init_pit_timer s = if s.pit_initialized then record s { interrupts = false } else record s {
    pit_counters = replicate pit_num_counters (record { active = false; count = 0 });
    devices = v.outb 0x43 0xe2 (v.outb 0x40 0x04 (v.outb 0x40 0xa9 (v.outb 0x43 0x34 s.devices)));
    frequency = 1000;
    idt_entries = idt_add_isr 0x20 handler 0 interrupt_gate_32 s.idt_entries;
    pit_initialized = true;
    interrupts = true;
  }

  abbrev pub ensure_initialized : S → S
  ensure_initialized s = if s.pit_initialized then s else init_pit_timer s

  unfoldable pub pit_get_frequency : S → ℕ × S
  unfolding init_pit_timer
  pit_get_frequency s = let s' = ensure_initialized s in (s'.frequency, s')

  -- A call on the counter of a number: the check, and the counter changed.
  abbrev pub with_counter :
      ℕ → (PitCounter → PitCounter) → (PitCounter → PitResult) → S → Option (PitResult × S)
  with_counter counter_id change answer s =
      if ltb pit_num_counters counter_id
      then some (is_error pit_out_of_range, s)
      else elim (get_elem? s.pit_counters counter_id) [
        | none ↦ none
        | some c ↦
            some (answer c, record s { pit_counters = set s.pit_counters counter_id (change c) })
      ]

  -- The loop of pitAddCounter over the array.
  unfoldable pub claim_counter : S → PitResult × S
  unfolding find_inactive
  claim_counter s = elim (find_inactive s.pit_counters 0) [
    | none ↦ (is_error pit_counters_full, s)
    | some i ↦ elim (get_elem? s.pit_counters i) [
      | none ↦ (is_error pit_counters_full, s)
      | some c ↦ (
        success_id i,
        record s { pit_counters = set s.pit_counters i (record c { active = true }) },
      )
    ]
  ]

  unfoldable pub pit_add_counter : S → PitResult × S
  unfolding claim_counter init_pit_timer
  pit_add_counter s = claim_counter (ensure_initialized s)

  unfoldable pub pit_deactivate_counter : ℕ → S → Option (PitResult × S)
  unfolding init_pit_timer
  pit_deactivate_counter counter_id s =
      with_counter counter_id (λ c. record { active = false; count = 0 }) (λ c. success)
        (ensure_initialized s)

  unfoldable pub pit_get_counter_count : ℕ → S → Option (PitResult × S)
  unfolding init_pit_timer
  pit_get_counter_count counter_id s =
      with_counter counter_id (λ c. c) (λ c. success_count c.count) (ensure_initialized s)

  unfoldable pub pit_reset_counter : ℕ → S → Option (PitResult × S)
  unfolding init_pit_timer
  pit_reset_counter counter_id s =
      with_counter counter_id zeroed (λ c. success) (ensure_initialized s)

  -- pitSleep with the interrupts that arrive while it waits: `irqs` bounds their number, and `none`
  -- is a wait that they do not end. Interrupts are off when it returns.
  unfoldable pub sleep_loop : ℕ → S → Option S
  unfolding pit_irq
  sleep_loop zero s = if s.sleep_counter == 0 then some (record s { interrupts = false }) else none
  sleep_loop (suc irqs) s =
      let rest = sleep_loop irqs (pit_irq s) in
      if s.sleep_counter == 0 then some (record s { interrupts = false }) else rest

  unfoldable pub pit_sleep : ℕ → ℕ → S → Option S
  unfolding sleep_loop
  pit_sleep irqs num_millis s = sleep_loop irqs (record s { sleep_counter = num_millis % u32_mod })
