-- ===== src/Serial/Reception.antt =====
-- src/serial.c: serialRead, on a line that delivers bytes after some waiting. The device is not in
-- the repository.
use palley_os.Prelude.{
  ℕ, zero, suc, ◌+◌, ◌%◌, ◌≤◌, ◌<◌, true, some, List, [], ◌∷◌, ◌++◌, ◌≡◌, refl, ◌∙◌, ◌⊎◌, arith,
  length, get_or, map, All,
}
use palley_os.Prelude.Memory.{Mem, store}
use palley_os.Ports.{Ports}
use palley_os.Ports.Io.{Cpu}
use palley_os.Serial.{com1, com_line_status, wait_ready, serial_read}

-- A byte, and how many reads of the status come before it is reported.
pub record Arrival : Type 0 where
  pub waits : ℕ
  pub byte : ℕ

-- The bytes to come, in order: a status counts down the waits of the first, its lowest bit says that
-- there are none left, and the data register then gives the byte.
pub record Line (v : Ports) : Type 0 where
  pub arrivals : v.State → List Arrival
  pub waiting :
      (d : v.State) (n b : ℕ) (rest : List Arrival)
      → arrivals d ≡ record { waits = suc n; byte = b } ∷ rest
      → ((v.inb (com1 + com_line_status) d).0 % 2 ≡ 0)
        × (arrivals (v.inb (com1 + com_line_status) d).1 ≡ record { waits = n; byte = b } ∷ rest)
  pub ready :
      (d : v.State) (b : ℕ) (rest : List Arrival)
      → arrivals d ≡ record { waits = 0; byte = b } ∷ rest
      → ((v.inb (com1 + com_line_status) d).0 % 2 ≡ 1)
        × (arrivals (v.inb (com1 + com_line_status) d).1 ≡ record { waits = 0; byte = b } ∷ rest)
  pub gives :
      (d : v.State) (b : ℕ) (rest : List Arrival)
      → arrivals d ≡ record { waits = 0; byte = b } ∷ rest
      → ((v.inb com1 d).0 ≡ b) × (arrivals (v.inb com1 d).1 ≡ rest)

bytes-cons :
    (after : Mem) (buffer b n : ℕ) (bs : List ℕ)
    → after buffer ≡ b
    → ((i : ℕ) → i < n → after (buffer + 1 + i) ≡ get_or bs i 0)
    → (i : ℕ) → i < suc n
    → after (buffer + i) ≡ get_or (b ∷ bs) i 0
bytes-cons after buffer b n bs first others zero h = ground (arith, first)
bytes-cons after buffer b n bs first others (suc i) h = ground (arith, others i)

module _ (v : Ports) (l : Line v) where
  wait_ready-ends :
      (fuel n b : ℕ) (rest : List Arrival) (s : Cpu v.State)
      → l.arrivals s.devices ≡ record { waits = n; byte = b } ∷ rest
      → n < fuel
      → (s' : Cpu v.State) × (wait_ready v fuel s ≡ (true, s'))
        × (l.arrivals s'.devices ≡ record { waits = 0; byte = b } ∷ rest)
  unfolding wait_ready
  wait_ready-ends zero n b rest s e h = absurd (omega arith)
  wait_ready-ends (suc fuel) zero b rest s e h =
      let (bit, same) = l.ready s.devices b rest e in
      (record s { devices = (v.inb (com1 + com_line_status) s.devices).1 }, rw bit refl, same)
  wait_ready-ends (suc fuel) (suc n) b rest s e h =
      let (bit, next) = l.waiting s.devices n b rest e in
      let (s', run, end) =
        wait_ready-ends fuel n b rest
          (record s { devices = (v.inb (com1 + com_line_status) s.devices).1 }) next
          (omega arith) in
      (s', rw bit run, end)

  read-next :
      (fuel buffer left n b : ℕ) (rest : List Arrival) (m : Mem) (s : Cpu v.State)
      → l.arrivals s.devices ≡ record { waits = n; byte = b } ∷ rest
      → n < fuel
      → (s' : Cpu v.State) × (serial_read v fuel buffer (suc left) m s
          ≡ serial_read v fuel (buffer + 1) left (store m buffer b) s')
        × (l.arrivals s'.devices ≡ rest)
  unfolding serial_read
  read-next fuel buffer left n b rest m s e h =
      let (s1, run, e1) = wait_ready-ends fuel n b rest s e h in
      let (value, e2) = l.gives s1.devices b rest e1 in
      (record s1 { devices = (v.inb com1 s1.devices).1 }, rw (run, value) refl, e2)

  -- serialRead of as many bytes as are asked for, each of which comes after fewer reads of the
  -- status than the fuel, ends with the bytes in the buffer in the order of their arrival and every
  -- other byte of memory as it was, and leaves the bytes that come behind them.
  pub serial_read-Received :
      (fuel buffer : ℕ) (asked rest : List Arrival) (m : Mem) (s : Cpu v.State)
      → l.arrivals s.devices ≡ asked ++ rest
      → All (λ (a : Arrival). a.waits < fuel) asked
      → (after : Mem) × (s' : Cpu v.State) × (serial_read v fuel buffer (length asked) m s
          ≡ (some after, s'))
        × ((i : ℕ)
            → i < length asked
            → after (buffer + i) ≡ get_or (map (λ (a : Arrival). a.byte) asked) i 0)
        × ((a : ℕ) → (a < buffer) ⊎ (buffer + length asked ≤ a) → after a ≡ m a)
        × (l.arrivals s'.devices ≡ rest)
  unfolding serial_read
  serial_read-Received fuel buffer [] rest m s e h =
      (m, s, refl, λ i lt. absurd (omega arith), λ a o. refl, e)
  serial_read-Received fuel buffer (x ∷ asked) rest m s e h =
      let (s1, step, e1) =
        read-next fuel buffer (length asked) x.waits x.byte (asked ++ rest) m s e h.0 in
      let (after, s', run, bytes, same, e') =
        serial_read-Received fuel (buffer + 1) asked rest (store m buffer x.byte) s1 e1 h.1 in
      (
        after,
        s',
        step ∙ run,
        bytes-cons after buffer x.byte (length asked) (map (λ (a : Arrival). a.byte) asked)
            (ground (arith, same buffer)) bytes,
        λ a o. ground (arith, same a),
        e',
      )
