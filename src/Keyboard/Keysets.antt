-- ===== src/Keyboard/Keysets.antt =====
-- src/keyboard_io.c: ps2GetKeyset, on a keyboard that acknowledges each byte that it is sent, as the
-- documents of the PS/2 interface say. Such a keyboard is not in the repository.
use palley_os.Prelude.{ℕ, suc, Bool, true, false, ◌≡◌, refl, some, List, [], ◌∷◌, not, ◌==◌}
use palley_os.Ports.{Ports}
use palley_os.Ports.Io.{Cpu}
use palley_os.Keyboard.Controller.{
  ps2, ack, resend, scan_code, is_answer, read_until, ps2_send_sub_command, ps2_get_keyset,
  keyset_message, no_scan_code_set,
}

-- The answers wait for their reader in order. The command and its 0 have an ACK each, and the second
-- is followed by the number of the set.
pub record AckKeyboard (v : Ports) : Type 0 where
  pub answers : v.State → List ℕ
  pub scan_set : v.State → ℕ
  pub reads :
      (d : v.State) (a : ℕ) (rest : List ℕ)
      → answers d ≡ a ∷ rest
      → ((v.inb ps2 d).0 ≡ a) × (answers (v.inb ps2 d).1 ≡ rest)
  pub asked :
      (d : v.State)
      → answers d ≡ []
      → answers (v.outb ps2 0 (v.outb ps2 scan_code d)) ≡ ack ∷ ack ∷ scan_set d ∷ []

module _ (v : Ports) where
  read_until-first :
      (left : ℕ) (test : ℕ → Bool) (s : Cpu v.State)
      → test (v.inb ps2 s.devices).0 ≡ true
      → read_until v (suc left) test ps2 s
        ≡ (some (v.inb ps2 s.devices).0, record s { devices = (v.inb ps2 s.devices).1 })
  unfolding read_until
  read_until-first left test s h = rw h refl

  ps2_send_sub_command-ack :
      (s : Cpu v.State) (d : v.State)
      → v.outb ps2 0 (v.outb ps2 scan_code s.devices) ≡ d
      → (v.inb ps2 d).0 ≡ ack
      → ps2_send_sub_command v scan_code 0 s
        ≡ (ack, record { interrupts = true; devices = (v.inb ps2 d).1 })
  unfolding ps2_send_sub_command
  ps2_send_sub_command-ack s d e first =
      rw
        (
          e,
          read_until-first 9 is_answer (record { interrupts = false; devices = d }) (rw first refl),
          first,
        )
        refl

  ps2_get_keyset-second :
      (s s' : Cpu v.State)
      → ps2_send_sub_command v scan_code 0 s ≡ (ack, s')
      → (v.inb ps2 s'.devices).0 ≡ ack
      → ps2_get_keyset v s ≡ (ack, record s' { devices = (v.inb ps2 s'.devices).1 })
  unfolding ps2_get_keyset
  ps2_get_keyset-second s s' e second =
      rw (e, read_until-first 9 (λ ret. not (ret == resend)) s' (rw second refl), second) refl

  module _ (k : AckKeyboard v) where
    -- ps2GetKeyset, on such a keyboard without a waiting answer, takes the second ACK for the
    -- number of the set, for which kbInit shows an error, and leaves the number unread.
    pub ps2_get_keyset-ack :
        (s : Cpu v.State)
        → k.answers s.devices ≡ []
        → ((ps2_get_keyset v s).0 ≡ ack)
          × (keyset_message (ps2_get_keyset v s).0 ≡ no_scan_code_set)
          × (k.answers (ps2_get_keyset v s).1.devices ≡ k.scan_set s.devices ∷ [])
    ps2_get_keyset-ack s none_wait =
        let d0 = v.outb ps2 0 (v.outb ps2 scan_code s.devices) in
        let (first, rest) =
          k.reads d0 ack (ack ∷ k.scan_set s.devices ∷ []) (k.asked s.devices none_wait) in
        let (second, last) = k.reads (v.inb ps2 d0).1 ack (k.scan_set s.devices ∷ []) rest in
        rw (ps2_get_keyset-second s _ (ps2_send_sub_command-ack s d0 refl first) second)
          (refl, refl, last)
