-- ===== src/Disk/Range.antt =====
-- src/ata.c: the range check of the transfers, and the words and blocks that they name.
use Prim.Native.Nat.{bit_or}
use palley_os.Prelude.{
  ℕ, ◌+◌, ◌*◌, ◌%◌, ◌^◌, ◌≤◌, ◌<◌, true, Option, none, some, [], ◌∷◌, ◌==◌, ltb, if◌then◌else◌, ◌≡◌,
  ◌↔◌, refl, arith, u32_mod, ◌⊎◌, inl, inr, Bool-cases,
}
use palley_os.Prelude.Bits.{holds_below, holds_below-pair}
use palley_os.Prelude.Memory.{Mem}
use palley_os.Ports.{Ports}
use palley_os.Timer.{Timer}
use palley_os.Disk.{
  AtaDrive, AtaType, ata, atapi, is_atapi, Message, not_implemented, sector_too_high, off_end,
  refusal, ata_read, ata_write, begin_transfer, lba_of, to_write,
}

-- The range that a transfer asks for lies on the drive, by the sum that wraps around.
abbrev pub OnDrive : AtaDrive → ℕ → ℕ → Type 0
OnDrive drive num_sectors sector_num =
    (sector_num ≤ drive.num_sectors)
    × ((sector_num + num_sectors ≤ drive.num_sectors)
        ⊎ (u32_mod ≤ sector_num + num_sectors)
          × (sector_num + num_sectors ≤ drive.num_sectors + u32_mod))

by_range :
    (size num_sectors sector_num : ℕ)
    → size < u32_mod
    → num_sectors < u32_mod
    → sector_num < u32_mod
    → ◌≡◌ {A = Option Message}
        (if ltb size sector_num
          then some (sector_too_high size)
          else if ltb size ((sector_num + num_sectors) % u32_mod)
          then some (off_end size)
          else none)
        none
      ↔ (sector_num ≤ size)
        × ((sector_num + num_sectors ≤ size)
            ⊎ (u32_mod ≤ sector_num + num_sectors) × (sector_num + num_sectors ≤ size + u32_mod))
by_range size num_sectors sector_num hs hn hf = ground arith

refusal-none_iff :
    (drive : AtaDrive) (num_sectors sector_num : ℕ)
    → drive.num_sectors < u32_mod
    → num_sectors < u32_mod
    → sector_num < u32_mod
    → (refusal drive num_sectors sector_num ≡ none)
      ↔ (drive.ata_type ≡ ata) × OnDrive drive num_sectors sector_num
refusal-none_iff drive num_sectors sector_num hs hn hf = go drive.ata_type
  where
    go :
        (type : AtaType)
        → ◌≡◌ {A = Option Message}
            (if is_atapi type
              then some not_implemented
              else if ltb drive.num_sectors sector_num
              then some (sector_too_high drive.num_sectors)
              else if ltb drive.num_sectors ((sector_num + num_sectors) % u32_mod)
              then some (off_end drive.num_sectors)
              else none)
            none
          ↔ (type ≡ ata) × OnDrive drive num_sectors sector_num
    go ata =
        let (to, from) = by_range drive.num_sectors num_sectors sector_num hs hn hf in
        (λ e. (refl, to e), λ h. from h.1)
    go atapi = (λ e. absurd (cc), λ h. absurd (cc))

-- A transfer, with a size, a count and a sector of 32 bits, is refused but for a drive without
-- packets and a range that lies on the drive or whose end wraps around to a sector of the drive, from
-- a sector that is not behind its end. A refusal gives its message and 0; no port of the drive is
-- read or written, and no word of the buffer.
pub transfers-refused :
    (v : Ports) (handler irqs fuel : ℕ) (drive : AtaDrive) (m : Mem)
    (buffer num_sectors sector_num : ℕ) (s : Timer v.State)
    → drive.num_sectors < u32_mod
    → num_sectors < u32_mod
    → sector_num < u32_mod
    → ((refusal drive num_sectors sector_num ≡ none)
        ↔ (drive.ata_type ≡ ata) × OnDrive drive num_sectors sector_num)
      × ((message : Message)
          → refusal drive num_sectors sector_num ≡ some message
          → (ata_write v handler irqs fuel drive m buffer num_sectors sector_num s
              ≡ some ((message ∷ [], 0), s))
            × (ata_read v handler irqs fuel drive m buffer num_sectors sector_num s
                ≡ some (((message ∷ [], 0), m), s)))
unfolding ata_write ata_read
transfers-refused v handler irqs fuel drive m buffer num_sectors sector_num s hs hn hf = (
  refusal-none_iff drive num_sectors sector_num hs hn hf,
  λ message e. (rw (e, ata_write) refl, rw (e, ata_read) refl),
)

on_drive-accepted :
    (drive : AtaDrive) (num_sectors sector_num : ℕ)
    → drive.ata_type ≡ ata
    → sector_num + num_sectors ≤ drive.num_sectors
    → drive.num_sectors < u32_mod
    → refusal drive num_sectors sector_num ≡ none
on_drive-accepted drive num_sectors sector_num is_ata fits size =
    (refusal-none_iff drive num_sectors sector_num size (omega arith) (omega arith)).1
      (is_ata, (omega arith, inl fits))

-- A transfer of the sectors 2^19 further on is in every way the transfer of the sectors themselves,
-- where both lie on the drive: the same ports are written and read in the same order, with the same
-- values, since the byte address of a sector is cut to 28 bits.
pub transfers-alias :
    (v : Ports) (handler irqs fuel : ℕ) (drive : AtaDrive) (m : Mem)
    (buffer num_sectors sector_num : ℕ) (s : Timer v.State)
    → drive.ata_type ≡ ata
    → sector_num + 2 ^ 19 + num_sectors ≤ drive.num_sectors
    → drive.num_sectors < u32_mod
    → (ata_write v handler irqs fuel drive m buffer num_sectors (sector_num + 2 ^ 19) s
        ≡ ata_write v handler irqs fuel drive m buffer num_sectors sector_num s)
      × (ata_read v handler irqs fuel drive m buffer num_sectors (sector_num + 2 ^ 19) s
          ≡ ata_read v handler irqs fuel drive m buffer num_sectors sector_num s)
unfolding ata_write ata_read begin_transfer
transfers-alias v handler irqs fuel drive m buffer num_sectors sector_num s is_ata fits size =
    let near = on_drive-accepted drive num_sectors sector_num is_ata (omega arith) size in
    let far = on_drive-accepted drive num_sectors (sector_num + 2 ^ 19) is_ata fits size in
    let same : lba_of (sector_num + 2 ^ 19) ≡ lba_of sector_num = omega arith in
    (
      rw (near, far, ata_write, begin_transfer, same) refl,
      rw (near, far, ata_read, begin_transfer, same) refl,
    )

-- The words that are written for two bytes: where the first is below 128 the two make the word, and
-- where it is not the second is lost, its place taken by the sign.
word_table :
    holds_below 256 (λ high. holds_below 128 (λ low. bit_or low (high * 256) == low + high * 256))
    ≡ true
unfolding holds_below
word_table = refl

sign_table :
    holds_below 256
      (λ high. holds_below 256 (λ low. bit_or (low + 0xFF00) (high * 256) == low + 0xFF00))
    ≡ true
unfolding holds_below
sign_table = refl

-- The word that is written for two bytes is the two, the low one first, where the first is below
-- 128; otherwise the second is lost and its bits are all set.
pub to_write-word :
    (m : Mem) (p : ℕ)
    → m p < 256
    → m (p + 1) < 256
    → to_write m p ≡ (if ltb (m p) 128 then m p + m (p + 1) * 256 else m p + 0xFF00)
to_write-word m p low high =
    let second : (m (p + 1) + m (p + 2) * 2 ^ 8) * 2 ^ 8 % 2 ^ 16 ≡ m (p + 1) * 256 = omega arith in
    rw second (elim (Bool-cases (ltb (m p) 128)) [
      | inl small ↦
          let plain =
            holds_below-pair 256 128 (λ h l. bit_or l (h * 256) == l + h * 256) (m (p + 1)) (m p)
              word_table high (ground arith) in
          rw small (ground (arith, plain))
      | inr large ↦
          let signed =
            holds_below-pair 256 256 (λ h l. bit_or (l + 0xFF00) (h * 256) == l + 0xFF00)
              (m (p + 1)) (m p) sign_table high low in
          rw large (ground (arith, signed))
    ])
