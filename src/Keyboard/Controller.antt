-- ===== src/Keyboard/Controller.antt =====
-- src/keyboard_io.c: the commands to the keyboard and to its controller, and kbInit. A byte that the
-- source has as a signed number is its bit pattern. A message is the constructor that names it.
use Prim.Native.Nat.{bit_and, bit_or}
use palley_os.Prelude.{
  ℕ, zero, suc, ◌-◌, ◌%◌, ◌^◌, Bool, true, false, not, ◌&&◌, ◌||◌, Option, none, some, List, [],
  ◌∷◌, ◌++◌, ◌==◌, ltb, if◌then◌else◌,
}
use palley_os.Ports.{Ports}
use palley_os.Ports.Io.{Io, return, ◌>>=◌, ◌>>◌, cli, sti, outb, inb}
use palley_os.Console.{tio_enable_cursor}
use palley_os.Keyboard.{scancode_set1, uppercase_scancode_set1}

abbrev pub ps2 : ℕ
ps2 = 0x60

abbrev pub ps2_command : ℕ
ps2_command = 0x64

abbrev pub ack : ℕ
ack = 0xFA

abbrev pub resend : ℕ
resend = 0xFE

abbrev pub scan_code : ℕ
scan_code = 0xF0

abbrev pub echo : ℕ
echo = 0xEE

-- The -1 of a command without a subcommand.
abbrev pub no_subcommand : ℕ
no_subcommand = 0xFF

pub data Message : Type 0 where
  controller_failed port_1_failed port_2_failed reset_failed : Message
  echo_received not_responding no_scan_code_set : Message
  scan_code_set : ℕ → Message

-- kb_keyset, kb_keyset_upper and keyboard_initialized, as kbInit leaves them.
pub record Keysets : Type 0 where
  pub kb_keyset : List ℕ
  pub kb_keyset_upper : List ℕ
  pub keyboard_initialized : Bool

abbrev pub is_answer : ℕ → Bool
is_answer ret = ret == ack || ret == echo

abbrev pub message_if : Bool → Message → List Message
message_if failed message = if failed then message ∷ [] else []

-- What is shown for the answer to the question for the set; a negative number is an error.
abbrev pub keyset_message : ℕ → Message
keyset_message keycode_set =
    if ltb 0 keycode_set && ltb keycode_set 128
    then scan_code_set (
        if keycode_set == 0x43
        then 1
        else if keycode_set == 0x41
        then 2
        else if keycode_set == 0x3f
        then 3
        else keycode_set)
    else no_scan_code_set

module _ (v : Ports) where
  -- Reads of a port, at most `left` of them, up to a value that the test takes.
  unfoldable pub read_until : ℕ → (ℕ → Bool) → ℕ → Io v.State (Option ℕ)
  read_until zero is_wanted port s = (none, s)
  read_until (suc left) is_wanted port s =
      let (ret, s') = inb v port s in
      let rest = read_until left is_wanted port s' in if is_wanted ret then (some ret, s') else rest

  -- The interrupts are turned on again by an answer only.
  abbrev pub answered : Option ℕ → Io v.State ℕ
  answered none = return 1
  answered (some ret) = do sti; return ret

  unfoldable pub ps2_send_sub_command : ℕ → ℕ → Io v.State ℕ
  ps2_send_sub_command command subcommand = do
    cli
    outb v ps2 command
    if ltb subcommand 128 then outb v ps2 subcommand else return tt
    ret ← read_until 10 is_answer ps2
    answered ret

  unfoldable pub ps2_send_dev_command : ℕ → Io v.State ℕ
  ps2_send_dev_command command = ps2_send_sub_command command no_subcommand

  unfoldable pub ps2_set_keyset : ℕ → Io v.State Bool
  ps2_set_keyset set_num = do ret ← ps2_send_sub_command 0xF0 set_num; return (not (ret == resend))

  -- The last of ten reads is taken where each is a RESEND.
  abbrev pub last_or_resend : Option ℕ → ℕ
  last_or_resend none = resend
  last_or_resend (some ret) = ret

  unfoldable pub ps2_get_keyset : Io v.State ℕ
  ps2_get_keyset = do
    ret ← ps2_send_sub_command scan_code 0
    if ret == ack
        then (do set ← read_until 10 (λ ret. not (ret == resend)) ps2; return (last_or_resend set))
        else return 0xFF

  -- `inb(0x64) & 1`
  abbrev pub out_buff_status : ℕ → Bool
  out_buff_status status = status % 2 == 1

  abbrev pub read_output : Option ℕ → Io v.State ℕ
  read_output none = return 0xff
  read_output (some status) = inb v ps2

  unfoldable pub ps2_send_command : ℕ → Bool → Io v.State ℕ
  ps2_send_command comm returns = do
    outb v ps2_command comm
    if returns
        then (do status ← read_until 10 out_buff_status ps2_command; read_output status)
        else return 0xff

  -- The configuration byte and the three tests. `test` is the outcome of a comparison in each
  -- message, so that it is 1 there.
  unfoldable pub ps2_tests : Io v.State (List Message)
  ps2_tests = do
    ps2_send_command 0xAD false
    ps2_send_command 0xA7 false
    inb v 0x60
    ccb ← ps2_send_command 0x20 true
    outb v 0x64 0x60
    outb v 0x60 (bit_or (bit_and ccb (255 - 2 ^ 6)) 3)
    controller ← ps2_send_command 0xAA true
    port_1 ← ps2_send_command 0xAB true
    port_2 ← ps2_send_command 0xA9 true
    ps2_send_command 0xAE false
    ps2_send_command 0xA8 false
    return (
        message_if (not (controller == 0x55)) controller_failed
        ++ (message_if (not (port_1 == 0x0)) port_1_failed
            ++ message_if (not (port_2 == 0x0)) port_2_failed))

  unfoldable pub ps2_init : Io v.State (List Message)
  ps2_init = do
    shown ← ps2_tests
    reset ← ps2_send_dev_command 0xff
    outb v 0x21 0xfc
    outb v 0xa1 0xff
    return (shown ++ message_if (reset == 0xFD) reset_failed)

  -- kbInit behind the echo.
  unfoldable pub kb_set_up : List Message → Io v.State (List Message × Keysets)
  kb_set_up shown = do
    ps2_set_keyset 1
    keycode_set ← ps2_get_keyset
    sti
    λ s. (
      (
        shown ++ (echo_received ∷ keyset_message keycode_set ∷ []),
        record {
          kb_keyset = scancode_set1;
          kb_keyset_upper = uppercase_scancode_set1;
          keyboard_initialized = true;
        },
      ),
      record s { devices = tio_enable_cursor v s.devices },
    )

  unfoldable pub kb_init : Keysets → Io v.State (List Message × Keysets)
  kb_init keysets = do
    cli
    shown ← ps2_init
    answer ← ps2_send_dev_command echo
    if answer == 1 then return (shown ++ (not_responding ∷ []), keysets) else kb_set_up shown
