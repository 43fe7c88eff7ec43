-- ===== src/Disk/Setup.antt =====
-- src/ata.c: isFloatingBus, ataIdentify and ideInit.
use Prim.Native.Nat.{bit_or}
use palley_os.Prelude.{
  ℕ, zero, suc, ◌+◌, ◌*◌, ◌^◌, Bool, true, false, not, ◌&&◌, ◌||◌, Option, none, some, List, [],
  ◌∷◌, ◌==◌, if◌then◌else◌, ◌≡◌, refl, get_or, arith,
}
use mathlib.Core.Path.{subst}
use palley_os.Ports.{Ports}
use palley_os.Timer.{Timer}
use palley_os.Disk.{
  AtaDrive, ata, atapi, primary, secondary, Call, return, ◌>>=◌, ◌>>◌, out, input, input_word, poll,
  ata_set_no_interrupts, ide_poll, error_set, data_transfer_requested,
}

abbrev pub pbus : ℕ
pbus = 0x1F0

abbrev pub pbusc : ℕ
pbusc = 0x3f6

abbrev pub sbus : ℕ
sbus = 0x170

-- ideIRQHandler, on the flag interrupt_recieved, which nothing reads.
abbrev pub ide_irq_handler : Bool → Bool
ide_irq_handler interrupt_recieved = true

module _ (v : Ports) where
  abbrev pub is_floating_bus : Call v.State Bool
  is_floating_bus = do
    init_read_primary ← input v (pbus + 7)
    init_read_secondary ← input v (sbus + 7)
    return (init_read_primary == 0xFF && (init_read_secondary == 0xFF))

  -- atapiSetup returns at once; what stands behind its first return is never run.
  abbrev pub atapi_setup : AtaDrive → Call v.State (Bool × AtaDrive)
  atapi_setup drive = return (false, drive)

  -- The words of the identification, in their order.
  unfoldable pub read_data : ℕ → AtaDrive → Call v.State (List ℕ)
  read_data zero drive = return []
  read_data (suc left) drive = do
    word ← input_word v drive.io_port
    rest ← read_data left drive
    return (word ∷ rest)

  module _ (fuel : ℕ) where
    -- Behind the check for packets: the wait for the data, and the data.
    unfoldable pub identify_data : AtaDrive → Call v.State (Bool × AtaDrive)
    unfolding poll read_data
    identify_data drive = do
      status ←
          poll v fuel (λ status. data_transfer_requested status || error_set status)
            drive.command_port
      if error_set status then return (false, drive) else do
        data_words ← read_data 256 drive
        let num_lba28_sectors = bit_or (get_or data_words 60 0) (get_or data_words 61 0 * 2 ^ 16)
        return (not (num_lba28_sectors == 0), record drive { num_sectors = num_lba28_sectors })

    -- The drive that the pointer leads to is given back as the call leaves it.
    unfoldable pub ata_identify : AtaDrive → Call v.State (Bool × AtaDrive)
    unfolding identify_data poll
    ata_identify drive = do
      out v (drive.io_port + 6) 0xA0
      ata_set_no_interrupts v drive
      out v (drive.io_port + 8) 0x00
      out v (drive.io_port + 3) 0x00
      out v (drive.io_port + 4) 0x00
      out v (drive.io_port + 5) 0x00
      out v (drive.io_port + 7) 0xEC
      status ← input v (drive.io_port + 7)
      if status == 0x00 then return (false, drive) else do
        ide_poll v fuel drive
        lbamid ← input v (drive.io_port + 4)
        lbahigh ← input v (drive.io_port + 5)
        if lbamid == 0x14 && (lbahigh == 0xEB)
            then atapi_setup (record drive { ata_type = atapi; uses_packets = true })
            else identify_data drive

    -- `uninit` is what the stack holds where each of the two drives is declared, and `ata_drives` the
    -- array before the call, which is given back as the call leaves it.
    unfoldable pub ide_init :
        AtaDrive × AtaDrive → AtaDrive × AtaDrive → Call v.State (Bool × (AtaDrive × AtaDrive))
    unfolding ata_identify
    ide_init uninit ata_drives =
        let primary_drive = record (uninit.0) {
          ata_type = ata;
          type = primary;
          io_port = pbus;
          command_port = pbusc;
        } in
        let secondary_drive = record (uninit.1) {
          ata_type = ata;
          type = secondary;
          io_port = sbus;
          command_port = pbusc;
        } in
        let found = do
          ata_identify primary_drive
          ata_identify secondary_drive
          return (true, (primary_drive, secondary_drive))
        in do floating ← is_floating_bus; if floating then return (false, ata_drives) else found

-- What holds of the result of a call, if it returns.
abbrev pub Gives : {D A : Type 0} → (A → Type 0) → Option (A × Timer D) → Type 0
Gives Q none = Unit
Gives Q (some (a, s)) = Q a

Gives-bind :
    {D A B : Type 0} (Q : B → Type 0) (call : Call D A) (next : A → Call D B) (s : Timer D)
    → ((a : A) (s' : Timer D) → Gives Q (next a s'))
    → Gives Q ((call >>= next) s)
Gives-bind {D} {A} {B} Q call next s h = given (call s)
  where
    given : (r : Option (A × Timer D)) → Gives Q (elim r [ none ↦ none | some (a, s') ↦ next a s' ])
    given none = tt
    given (some (a, s')) = h a s'

Gives-if :
    {D A : Type 0} (Q : A → Type 0) (test : Bool) (call other : Call D A) (s : Timer D)
    → Gives Q (call s)
    → Gives Q (other s)
    → Gives Q ((if test then call else other) s)
Gives-if Q true call other s h k = h
Gives-if Q false call other s h k = k

-- The drives that ideInit sets up: the size of each is what the stack held in its place, although
-- the identification has found it out, and both have the control port of the primary bus.
abbrev pub SetUp : AtaDrive × AtaDrive → Bool × (AtaDrive × AtaDrive) → Type 0
SetUp uninit (found, (first, second)) =
    found ≡ true
    → (first.num_sectors ≡ uninit.0.num_sectors)
      × (second.num_sectors ≡ uninit.1.num_sectors)
      × (first.io_port ≡ pbus)
      × (second.io_port ≡ sbus)
      × (second.command_port ≡ first.command_port)

-- Where ideInit returns true, each drive of the array has the size that the stack held in its place
-- before the identification, and the secondary drive has the control port of the primary one.
pub ide_init-SetUp :
    (v : Ports) (fuel : ℕ) (uninit ata_drives : AtaDrive × AtaDrive) (s s' : Timer v.State)
    (result : Bool × (AtaDrive × AtaDrive))
    → ide_init v fuel uninit ata_drives s ≡ some (result, s')
    → SetUp uninit result
unfolding ide_init
ide_init-SetUp v fuel uninit ata_drives s s' result e = subst (Gives (SetUp uninit)) e (
    Gives-bind (SetUp uninit) (is_floating_bus v) _ s (λ floating s1.
      Gives-if (SetUp uninit) floating (return (false, ata_drives)) found s1
        (λ h. absurd (ground arith))
        (Gives-bind (SetUp uninit) (ata_identify v fuel first) others s1 (λ a s2.
          Gives-bind (SetUp uninit) (ata_identify v fuel second) last s2
            (λ b s3 h. (refl, refl, refl, refl, refl))))))
  where
    first : AtaDrive
    first = record (uninit.0) {
      ata_type = ata;
      type = primary;
      io_port = pbus;
      command_port = pbusc;
    }

    second : AtaDrive
    second = record (uninit.1) {
      ata_type = ata;
      type = secondary;
      io_port = sbus;
      command_port = pbusc;
    }

    last : Bool × AtaDrive → Call v.State (Bool × (AtaDrive × AtaDrive))
    last b = return (true, (first, second))

    others : Bool × AtaDrive → Call v.State (Bool × (AtaDrive × AtaDrive))
    others a = ata_identify v fuel second >>= last

    found : Call v.State (Bool × (AtaDrive × AtaDrive))
    found = ata_identify v fuel first >>= others
