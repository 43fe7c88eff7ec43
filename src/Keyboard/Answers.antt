-- ===== src/Keyboard/Answers.antt =====
-- src/keyboard_io.c: what the commands to the keyboard return, and how kbInit ends.
use palley_os.Prelude.{
  ℕ, zero, suc, Bool, true, false, ◌≡◌, refl, ◌⊎◌, inl, inr, Option, none, some, List, [], ◌∷◌,
  ◌++◌, arith, ◌==◌, ltb, if◌then◌else◌, Bool-cases,
}
use mathlib.Core.List.{append-nil}
use palley_os.Ports.{Ports}
use palley_os.Ports.Io.{Cpu, return, cli}
use palley_os.Keyboard.{scancode_set1, uppercase_scancode_set1}
use palley_os.Keyboard.SelfTests.{failures, tests-failures}
use palley_os.Keyboard.Controller.{
  ps2, ack, echo, is_answer, answered, read_until, ps2_send_sub_command, ps2_send_dev_command,
  ps2_set_keyset, ps2_get_keyset, ps2_init, ps2_tests, no_subcommand, kb_set_up, kb_init, Keysets,
  Message, not_responding, echo_received, keyset_message,
}

module _ (v : Ports) where
  -- The next reads of the keyboard's port, as many as told, are neither ACK nor ECHO.
  abbrev pub Unanswered : ℕ → v.State → Type 0
  Unanswered zero d = Unit {0}
  Unanswered (suc n) d = (is_answer (v.inb ps2 d).0 ≡ false) × Unanswered n (v.inb ps2 d).1

  -- How a command ends: with an answer and interrupts on, or with 1 and interrupts off.
  abbrev pub Answered : v.State → ℕ × Cpu v.State → Type 0
  Answered sent (ret, s) =
      ((ret ≡ ack) ⊎ (ret ≡ echo)) × (s.interrupts ≡ true)
      ⊎ (ret ≡ 1) × (s.interrupts ≡ false) × Unanswered 10 sent

  read_until-interrupts :
      (left : ℕ) (test : ℕ → Bool) (port : ℕ) (s : Cpu v.State)
      → (read_until v left test port s).1.interrupts ≡ s.interrupts
  unfolding read_until
  read_until-interrupts zero test port s = refl
  read_until-interrupts (suc left) test port s =
      let rest =
        read_until-interrupts left test port (record s { devices = (v.inb port s.devices).1 }) in
      ground arith

  read_until-answer :
      (left : ℕ) (s : Cpu v.State)
      → ((read_until v left is_answer ps2 s).0 ≡ none) × Unanswered left s.devices
        ⊎ ((ret : ℕ) × ((read_until v left is_answer ps2 s).0 ≡ some ret) × (is_answer ret ≡ true))
  unfolding read_until
  read_until-answer zero s = inl (refl, tt)
  read_until-answer (suc left) s =
      let (ret, d) = v.inb ps2 s.devices in
      elim (Bool-cases (is_answer ret)) [
        | inl e ↦ rw e (inr (ret, refl, e))
        | inr e ↦ rw e (elim (read_until-answer left (record s { devices = d })) [
          | inl (quiet, unanswered) ↦ inl (quiet, (refl, unanswered))
          | inr found ↦ inr found
        ])
      ]

  -- The devices with a command and a subcommand sent.
  abbrev pub sent : ℕ → ℕ → v.State → v.State
  sent command subcommand d =
      let d' = v.outb ps2 command d in if ltb subcommand 128 then v.outb ps2 subcommand d' else d'

  answered-Answered :
      (d : v.State) (r : Option ℕ) (s : Cpu v.State)
      → s.interrupts ≡ false
      → (r ≡ none) × Unanswered 10 d ⊎ ((ret : ℕ) × (r ≡ some ret) × (is_answer ret ≡ true))
      → Answered d (answered v r s)
  answered-Answered d none s off (inl h) = inr (refl, off, h.1)
  answered-Answered d none s off (inr (ret, e, found)) = absurd (cc)
  answered-Answered d (some x) s off (inl h) = absurd (cc)
  answered-Answered d (some x) s off (inr (ret, e, found)) = inl (ground arith, refl)

  -- ps2SendSubCommand returns ACK or ECHO with interrupts on, or 1 with interrupts off; the latter
  -- where none of the ten bytes that are read behind the command is ACK or ECHO.
  pub ps2_send_sub_command-Answered :
      (command subcommand : ℕ) (s : Cpu v.State)
      → Answered (sent command subcommand s.devices) (ps2_send_sub_command v command subcommand s)
  unfolding ps2_send_sub_command
  ps2_send_sub_command-Answered command subcommand s = elim (Bool-cases (ltb subcommand 128)) [
    | inl e ↦ rw e (awaited (v.outb ps2 subcommand (v.outb ps2 command s.devices)))
    | inr e ↦ rw e (awaited (v.outb ps2 command s.devices))
  ]
    where
      awaited :
          (d : v.State)
          → Answered d (
              answered v
                (read_until v 10 is_answer ps2 (record { interrupts = false; devices = d })).0
                (read_until v 10 is_answer ps2 (record { interrupts = false; devices = d })).1)
      awaited d =
          let s' : Cpu v.State = record { interrupts = false; devices = d } in
          answered-Answered d _ _ (read_until-interrupts 10 is_answer ps2 s')
            (read_until-answer 10 s')

  -- ps2SetKeyset reports success whatever the keyboard answers, a RESEND or nothing included.
  pub ps2_set_keyset-true : (set_num : ℕ) (s : Cpu v.State) → (ps2_set_keyset v set_num s).0 ≡ true
  unfolding ps2_set_keyset
  ps2_set_keyset-true set_num s =
      let answer = ps2_send_sub_command-Answered 0xF0 set_num s in ground arith

  ps2_init-messages : (s : Cpu v.State) → (ps2_init v s).0 ≡ (ps2_tests v s).0
  unfolding ps2_init ps2_send_dev_command
  ps2_init-messages s =
      let answer = ps2_send_sub_command-Answered 0xff no_subcommand (ps2_tests v s).1 in
      let fine : ((ps2_send_sub_command v 0xff no_subcommand (ps2_tests v s).1).0 == 0xFD) ≡ false =
        ground arith in
      rw fine (append-nil (ps2_tests v s).0)

  abbrev initialized : Keysets
  initialized = record {
    kb_keyset = scancode_set1;
    kb_keyset_upper = uppercase_scancode_set1;
    keyboard_initialized = true;
  }

  -- How kbInit ends, by the messages of the tests and the devices with the echo sent: on an answer
  -- the keyboard is initialised and interrupts are on; on none it is as before, and they are off.
  abbrev pub Ends :
      List Message → v.State → Keysets → (List Message × Keysets) × Cpu v.State → Type 0
  Ends shown asked keysets ((messages, keysets'), s) =
      ((n : ℕ) × (messages ≡ shown ++ (echo_received ∷ keyset_message n ∷ []))
        × (keysets' ≡ initialized)
        × (s.interrupts ≡ true))
      ⊎ (Unanswered 10 asked
          × (messages ≡ shown ++ (not_responding ∷ []))
          × (keysets' ≡ keysets)
          × (s.interrupts ≡ false))

  echoed-Ends :
      (shown : List Message) (asked : v.State) (keysets : Keysets) (r : ℕ × Cpu v.State)
      → Answered asked r
      → Ends shown asked keysets (
          (if r.0 == 1 then return (shown ++ (not_responding ∷ []), keysets) else kb_set_up v shown)
            r.1)
  unfolding kb_set_up
  echoed-Ends shown asked keysets (ret, s) (inl (inl e, on)) =
      rw e (inl ((ps2_get_keyset v (ps2_set_keyset v 1 s).1).0, refl, refl, refl))
  echoed-Ends shown asked keysets (ret, s) (inl (inr e, on)) =
      rw e (inl ((ps2_get_keyset v (ps2_set_keyset v 1 s).1).0, refl, refl, refl))
  echoed-Ends shown asked keysets (ret, s) (inr (e, off, quiet)) =
      rw e (inr (quiet, refl, refl, off))

  -- kbInit shows a failure of the controller's test where its reply is not 0x55, one of each port's
  -- test where its reply is not 0, and never one of the reset; it
  -- initialises the keyboard and turns interrupts on, or finds no ACK and no ECHO in the ten bytes
  -- that it reads behind the echo, and leaves the keyboard as it was, with interrupts off.
  pub kb_init-Ends :
      (keysets : Keysets) (s : Cpu v.State)
      → Ends
          (failures v s.devices)
          (sent echo no_subcommand (ps2_init v (cli s).1).1.devices)
          keysets
          (kb_init v keysets s)
  unfolding kb_init ps2_send_dev_command
  kb_init-Ends keysets s =
      let s' = (ps2_init v (cli s).1).1 in
      rw (← tests-failures v (cli s).1, ← ps2_init-messages (cli s).1)
        (echoed-Ends (ps2_init v (cli s).1).0 (sent echo no_subcommand s'.devices) keysets
          (ps2_send_sub_command v echo no_subcommand s')
          (ps2_send_sub_command-Answered echo no_subcommand s'))
