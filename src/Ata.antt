-- ===== src/Ata.antt =====
-- kernel/ata.c: reading and writing runs of sectors. The device behind the ports is a parameter, an
-- interface with what a disk promises: a sector that was written is read back, and no other sector
-- changes. A sector is its 512 bytes by their offset.
pub mod Runs
use bumbel_bee.Base.{
  ℕ, zero, suc, ◌+◌, ◌*◌, ◌<◌, ◌≡◌, ◌≢◌, Bool, true, false, not, ◌||◌, Option, none, some, Array,
  ◌==◌, ltb, leb, ◌&&◌, ◌-◌, if◌then◌else◌,
}

abbrev pub sector_size : ℕ
sector_size = 512

-- A disk. A write tells whether the device accepted it; what a refused write leaves in its own
-- sector is open.
pub record Drive : Type 1 where
  pub Disk : Type 0
  pub is_there : Disk → Bool
  pub read_sector : ℕ → Disk → Option (Array ℕ)
  pub write_sector : ℕ → Array ℕ → Disk → Bool × Disk
  pub read_written :
      (lba : ℕ) (b : Array ℕ) (d : Disk)
      → (write_sector lba b d).0 ≡ true
      → (r : Array ℕ) × (read_sector lba (write_sector lba b d).1 ≡ some r)
        × ((x : ℕ) → x < sector_size → r x ≡ b x)
  pub read_other :
      (lba other : ℕ) (b : Array ℕ) (d : Disk)
      → lba ≢ other
      → read_sector other (write_sector lba b d).1 ≡ read_sector other d

-- sector `i` of a buffer
abbrev pub sector_at : Array ℕ → ℕ → Array ℕ
sector_at buffer i x = buffer (i * sector_size + x)

-- the buffer with sector `i` filled in
abbrev pub fill_sector : Array ℕ → ℕ → Array ℕ → Array ℕ
fill_sector buffer i sector x =
    if leb (i * sector_size) x && ltb x (i * sector_size + sector_size)
    then sector (x - i * sector_size)
    else buffer x

module _ (drive : Drive) where
  open drive use {Disk, is_there, read_sector, write_sector}

  -- the loop of `ata_write28`, with `n` sectors left, at sector `i`
  unfoldable pub write_run : ℕ → ℕ → ℕ → Array ℕ → Disk → Bool × Disk
  write_run zero i lba buffer d = (true, d)
  write_run (suc n) i lba buffer d =
      let (done, d') = write_sector (lba + i) (sector_at buffer i) d in
      let rest = write_run n (i + 1) lba buffer d' in if done then rest else (false, d')

  -- the loop of `ata_read28`
  unfoldable pub read_run : ℕ → ℕ → ℕ → Array ℕ → Disk → Option (Array ℕ)
  read_run zero i lba buffer d = some buffer
  read_run (suc n) i lba buffer d = elim (read_sector (lba + i) d) [
    | none ↦ none
    | some sector ↦ read_run n (i + 1) lba (fill_sector buffer i sector) d
  ]

  -- what that loop leaves in the buffer, also where a sector cannot be read
  unfoldable pub read_so_far : ℕ → ℕ → ℕ → Array ℕ → Disk → Array ℕ
  read_so_far zero i lba buffer d = buffer
  read_so_far (suc n) i lba buffer d = elim (read_sector (lba + i) d) [
    | none ↦ buffer
    | some sector ↦ read_so_far n (i + 1) lba (fill_sector buffer i sector) d
  ]

  -- `false` is -1. The device has 28 bits for an address.
  unfoldable pub ata_write28 : Bool → ℕ → ℕ → Array ℕ → Disk → Bool × Disk
  ata_write28 ready lba count buffer d =
      if not ready || ltb 0x0fffffff lba || count == 0
      then (false, d)
      else write_run count 0 lba buffer d

  unfoldable pub ata_read28 : Bool → ℕ → ℕ → Array ℕ → Disk → Option (Array ℕ)
  ata_read28 ready lba count buffer d =
      if not ready || ltb 0x0fffffff lba || count == 0 then none else read_run count 0 lba buffer d

  -- the value of `ata_ready`
  unfoldable pub ata_init : Disk → Bool
  ata_init d = is_there d
