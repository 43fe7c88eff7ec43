-- ===== src/Keyboard/SelfTests.antt =====
-- src/keyboard_io.c, ps2Init: the replies of the controller to its three tests, by the ports that are
-- written and read, and the failures that they stand for.
use Prim.Native.Nat.{bit_and, bit_or}
use palley_os.Prelude.{
  ℕ, zero, suc, ◌%◌, Bool, true, false, not, ◌≡◌, refl, Option, none, some, List, [], ◌∷◌, ◌++◌,
  ◌==◌, if◌then◌else◌, Bool-cases, inl, inr,
}
use palley_os.Ports.{Ports}
use palley_os.Ports.Io.{Cpu}
use palley_os.Keyboard.Controller.{
  read_until, read_output, out_buff_status, ps2_send_command, ps2_tests, Message, message_if,
  controller_failed, port_1_failed, port_2_failed,
}

module _ (v : Ports) where
  -- Reads of the status until its lowest bit is set, as many as told: whether it is.
  abbrev ready : ℕ → v.State → Bool × v.State
  ready zero d = (false, d)
  ready (suc left) d =
      let (status, d') = v.inb 0x64 d in
      let later = ready left d' in if status % 2 == 1 then (true, d') else later

  -- The reply to a command: the byte at the data port once there is one in ten reads, or else 0xff.
  abbrev reply : ℕ → v.State → ℕ × v.State
  reply comm d =
      let (there, d') = ready 10 (v.outb 0x64 comm d) in if there then v.inb 0x60 d' else (0xff, d')

  -- The devices once both ports are off, the data port is emptied, and the configuration byte has
  -- both interrupts and no translation.
  abbrev configured : v.State → v.State
  configured d =
      let (ccb, d') = reply 0x20 (v.inb 0x60 (v.outb 0x64 0xA7 (v.outb 0x64 0xAD d))).1 in
      v.outb 0x60 (bit_or (bit_and ccb 0xBF) 0x3) (v.outb 0x64 0x60 d')

  -- A test that is passed shows nothing.
  abbrev failed_unless : Bool → Message → List Message
  failed_unless true message = []
  failed_unless false message = message ∷ []

  -- The failures by the replies: the controller passes with 0x55, and each port with 0.
  abbrev pub failures : v.State → List Message
  failures d =
      let (controller, d1) = reply 0xAA (configured d) in
      let (first, d2) = reply 0xAB d1 in
      let (second, d3) = reply 0xA9 d2 in
      failed_unless (controller == 0x55) controller_failed
      ++ (failed_unless (first == 0) port_1_failed ++ failed_unless (second == 0) port_2_failed)

  -- A status that has been waited for, or the last one.
  abbrev Waited : Cpu v.State → Bool × v.State → Option ℕ × Cpu v.State → Type 0
  Waited s (true, d) r = (status : ℕ) × (r ≡ (some status, record s { devices = d }))
  Waited s (false, d) r = r ≡ (none, record s { devices = d })

  read_until-Waited :
      (left : ℕ) (s : Cpu v.State)
      → Waited s (ready left s.devices) (read_until v left (out_buff_status v) 0x64 s)
  unfolding read_until
  read_until-Waited zero s = refl
  read_until-Waited (suc left) s =
      let (status, d) = v.inb 0x64 s.devices in
      elim (Bool-cases (status % 2 == 1)) [
        | inl e ↦ rw e (status, refl)
        | inr e ↦ rw e (read_until-Waited left (record s { devices = d }))
      ]

  sent-reply :
      (comm : ℕ) (s : Cpu v.State)
      → ps2_send_command v comm true s
        ≡ ((reply comm s.devices).0, record s { devices = (reply comm s.devices).1 })
  unfolding ps2_send_command
  sent-reply comm s =
      let s' : Cpu v.State = record s { devices = v.outb 0x64 comm s.devices } in
      go (ready 10 s'.devices) (read_until v 10 (out_buff_status v) 0x64 s')
        (read_until-Waited 10 s')
    where
      go :
          (there : Bool × v.State) (r : Option ℕ × Cpu v.State)
          → Waited s there r
          → read_output v r.0 r.1 ≡ (
              let given = if there.0 then v.inb 0x60 there.1 else (0xff, there.1) in
              (given.0, record s { devices = given.1 }))
      go (true, d) r (status, e) = rw e refl
      go (false, d) r e = rw e refl

  sent-only :
      (comm : ℕ) (s : Cpu v.State)
      → ps2_send_command v comm false s ≡ (0xff, record s { devices = v.outb 0x64 comm s.devices })
  unfolding ps2_send_command
  sent-only comm s = refl

  shown-failed :
      (b : Bool) (message : Message) → message_if (not b) message ≡ failed_unless b message
  shown-failed true message = refl
  shown-failed false message = refl

  shown-all :
      (a b c : Bool)
      → message_if (not a) controller_failed
          ++ (message_if (not b) port_1_failed ++ message_if (not c) port_2_failed)
        ≡ failed_unless a controller_failed
          ++ (failed_unless b port_1_failed ++ failed_unless c port_2_failed)
  shown-all a b c =
      rw
        (
          shown-failed a controller_failed,
          shown-failed b port_1_failed,
          shown-failed c port_2_failed,
        )
        refl

  pub tests-failures : (s : Cpu v.State) → (ps2_tests v s).0 ≡ failures s.devices
  unfolding ps2_tests
  tests-failures s =
      let s1 : Cpu v.State = record s { devices = v.outb 0x64 0xAD s.devices } in
      let s2 : Cpu v.State = record s { devices = v.outb 0x64 0xA7 s1.devices } in
      let s3 : Cpu v.State = record s { devices = (v.inb 0x60 s2.devices).1 } in
      let s4 : Cpu v.State = record s { devices = configured s.devices } in
      let s5 : Cpu v.State = record s { devices = (reply 0xAA s4.devices).1 } in
      let s6 : Cpu v.State = record s { devices = (reply 0xAB s5.devices).1 } in
      rw
        (
          sent-only 0xAD s,
          sent-only 0xA7 s1,
          sent-reply 0x20 s3,
          sent-reply 0xAA s4,
          sent-reply 0xAB s5,
          sent-reply 0xA9 s6,
        )
        (shown-all ((reply 0xAA s4.devices).0 == 0x55) ((reply 0xAB s5.devices).0 == 0)
          ((reply 0xA9 s6.devices).0 == 0))
