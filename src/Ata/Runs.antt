-- ===== src/Ata/Runs.antt =====
-- What a run of sectors that was written holds, and what one sector that is read gives.
use bumbel_bee.Base.{
  ℕ, zero, suc, ◌+◌, ◌≤◌, ◌<◌, ◌≡◌, refl, ◌∙◌, ap, ◌⊎◌, inl, inr, Bool, true, false, Bool-cases,
  not, ◌||◌, Option, none, some, Array, ◌==◌, ltb, le→ltb, ne→==, ◌≢◌, arith, sym, if◌then◌else◌,
  ◌-◌, ◌*◌, leb, ◌&&◌,
}
use native.Mathlib.Decide.{ℕ_discrete, dec_lt}
use bumbel_bee.Ata.{
  Drive, sector_size, sector_at, fill_sector, write_run, read_run, ata_write28, ata_read28,
}

-- the buffer with `n` sectors of `source` filled in, from sector `i` on
abbrev refilled : ℕ → ℕ → Array ℕ → Array ℕ → Array ℕ
refilled i n source buffer x =
    if leb (i * sector_size) x && ltb x ((i + n) * sector_size) then source x else buffer x

refilled_step :
    (i n : ℕ) (source buffer r : Array ℕ)
    → ((x : ℕ) → x < sector_size → r x ≡ sector_at source i x)
    → (x : ℕ)
    → refilled (i + 1) n source (fill_sector buffer i r) x ≡ refilled i (suc n) source buffer x
refilled_step i n source buffer r agrees x = elim (dec_lt x (i * sector_size)) [
  | yes below ↦ ground arith
  | no from ↦ elim (dec_lt (x - i * sector_size) sector_size) [
    | yes within ↦
        let back : i * sector_size + (x - i * sector_size) ≡ x = omega arith in
        ground (arith, ap source back, agrees (x - i * sector_size) within)
    | no above ↦ ground arith
  ]
]

module _ (drive : Drive) where
  open drive use {Disk, read_sector, write_sector, read_written, read_other}

  -- Sectors outside a run keep what they hold.
  write_run_outside :
      (n i lba other : ℕ) (buffer : Array ℕ) (d : Disk)
      → (other < lba + i) ⊎ (lba + i + n ≤ other)
      → read_sector other (write_run drive n i lba buffer d).1 ≡ read_sector other d
  unfolding write_run
  write_run_outside zero i lba other buffer d h = refl
  write_run_outside (suc n) i lba other buffer d h =
      let first = write_sector (lba + i) (sector_at buffer i) d in
      let here = read_other (lba + i) other (sector_at buffer i) d (λ e. omega arith) in
      elim (Bool-cases first.0) [
        | inl done ↦
            rw done (write_run_outside n (i + 1) lba other buffer first.1 (omega arith) ∙ here)
        | inr failed ↦ rw failed here
      ]

  -- The sector `lba` is read back as `sector`.
  pub Holds : Array ℕ → ℕ → Disk → Type 0
  Holds sector lba d =
      (r : Array ℕ) × (read_sector lba d ≡ some r) × ((x : ℕ) → x < sector_size → r x ≡ sector x)

  pub Holds-kept :
      (sector : Array ℕ) (lba : ℕ) (d d' : Disk)
      → read_sector lba d' ≡ read_sector lba d
      → Holds sector lba d
      → Holds sector lba d'
  unfolding Holds
  Holds-kept sector lba d d' same (r, found, agrees) = (r, same ∙ found, agrees)

  write_run-Holds :
      (n i lba : ℕ) (buffer : Array ℕ) (d : Disk)
      → (write_run drive n i lba buffer d).0 ≡ true
      → (j : ℕ) → i ≤ j
      → j < i + n
      → Holds (sector_at buffer j) (lba + j) (write_run drive n i lba buffer d).1
  unfolding write_run Holds
  write_run-Holds zero i lba buffer d ok j p q = absurd (omega arith)
  write_run-Holds (suc n) i lba buffer d ok j p q =
      let first = write_sector (lba + i) (sector_at buffer i) d in
      elim (Bool-cases first.0) [
        | inr failed ↦ absurd (ground arith)
        | inl done ↦
            let rest : (write_run drive n (i + 1) lba buffer first.1).0 ≡ true = ground arith in
            let kept = write_run_outside n (i + 1) lba (lba + i) buffer first.1 (omega arith) in
            elim (ℕ_discrete i j) [
              | yes e ↦ rw done (
                  rw (← e) (
                    Holds-kept (sector_at buffer i) (lba + i) first.1
                      (write_run drive n (i + 1) lba buffer first.1).1 kept
                      (read_written (lba + i) (sector_at buffer i) d done)))
              | no ne ↦
                  rw done (
                    write_run-Holds n (i + 1) lba buffer first.1 rest j (omega arith) (omega arith))
            ]
      ]

  -- `ata_write28` leaves the sectors outside its range.
  pub ata_write_outside :
      (ready : Bool) (lba count other : ℕ) (buffer : Array ℕ) (d : Disk)
      → (other < lba) ⊎ (lba + count ≤ other)
      → read_sector other (ata_write28 drive ready lba count buffer d).1 ≡ read_sector other d
  unfolding ata_write28
  ata_write_outside ready lba count other buffer d h =
      let run = write_run_outside count 0 lba other buffer d (omega arith) in ground arith

  -- Each sector of a write that succeeds is read back.
  pub ata_write-Holds :
      (ready : Bool) (lba count : ℕ) (buffer : Array ℕ) (d : Disk)
      → (ata_write28 drive ready lba count buffer d).0 ≡ true
      → (j : ℕ) → j < count
      → Holds (sector_at buffer j) (lba + j) (ata_write28 drive ready lba count buffer d).1
  unfolding ata_write28
  ata_write-Holds ready lba count buffer d ok j p =
      elim (Bool-cases (not ready || ltb 0x0fffffff lba || count == 0)) [
        | inl refused ↦ absurd (ground arith)
        | inr done ↦
            rw done
              (write_run-Holds count 0 lba buffer d (ground arith) j (omega arith) (omega arith))
      ]

  -- what the device's answer for one sector makes of the buffer
  abbrev filled : Array ℕ → Option (Array ℕ) → Option (Array ℕ)
  filled buffer o = elim o [ none ↦ none | some r ↦ some (fill_sector buffer 0 r) ]

  read_run_one :
      (lba : ℕ) (buffer : Array ℕ) (d : Disk)
      → read_run drive 1 0 lba buffer d ≡ filled buffer (read_sector lba d)
  unfolding read_run
  read_run_one lba buffer d =
      let same : lba + 0 ≡ lba = omega arith in ap (λ a. filled buffer (read_sector a d)) same

  -- One sector that is written is read back.
  pub ata_write_one-Holds :
      (ready : Bool) (lba : ℕ) (buffer : Array ℕ) (d : Disk)
      → (ata_write28 drive ready lba 1 buffer d).0 ≡ true
      → Holds buffer lba (ata_write28 drive ready lba 1 buffer d).1
  unfolding Holds
  ata_write_one-Holds ready lba buffer d ok =
      let (r, found, agrees) = ata_write-Holds ready lba 1 buffer d ok 0 (omega arith) in
      let same : lba + 0 ≡ lba = omega arith in
      (
        r,
        ap (λ a. read_sector a (ata_write28 drive ready lba 1 buffer d).1) (sym same) ∙ found,
        λ x p. agrees x p ∙ ap buffer (omega arith),
      )

  pub ata_read_one-agree :
      (ready : Bool) (lba : ℕ) (buffer : Array ℕ) (d d' : Disk)
      → read_sector lba d' ≡ read_sector lba d
      → ata_read28 drive ready lba 1 buffer d' ≡ ata_read28 drive ready lba 1 buffer d
  unfolding ata_read28
  ata_read_one-agree ready lba buffer d d' same =
      let one =
        read_run_one lba buffer d' ∙ ap (filled buffer) same ∙ sym (read_run_one lba buffer d) in
      ap (λ r. if not ready || ltb 0x0fffffff lba || 1 == 0 then none else r) one

  -- The read of a sector that the device holds.
  pub ata_read_one-Holds :
      (lba : ℕ) (buffer sector : Array ℕ) (d : Disk)
      → lba ≤ 0x0fffffff
      → Holds sector lba d
      → (b : Array ℕ) × (ata_read28 drive true lba 1 buffer d ≡ some b)
        × ((x : ℕ) → x < sector_size → b x ≡ sector x)
  unfolding Holds ata_read28
  ata_read_one-Holds lba buffer sector d h (r, found, agrees) =
      let small : ltb 0x0fffffff lba ≡ false = le→ltb 0x0fffffff lba h in
      (
        fill_sector buffer 0 r,
        rw small (read_run_one lba buffer d ∙ ap (filled buffer) found),
        λ x p.
            let same : x - 0 ≡ x = omega arith in let here = ap r same ∙ agrees x p in ground arith,
      )

  -- A run of sectors that the device holds is read into the buffer.
  read_run-Holds :
      (n i lba : ℕ) (buffer source : Array ℕ) (d : Disk)
      → ((j : ℕ) → i ≤ j → j < i + n → Holds (sector_at source j) (lba + j) d)
      → (b : Array ℕ) × (read_run drive n i lba buffer d ≡ some b)
        × ((x : ℕ) → b x ≡ refilled i n source buffer x)
  unfolding Holds read_run
  read_run-Holds zero i lba buffer source d holds = (buffer, refl, λ x. ground arith)
  read_run-Holds (suc n) i lba buffer source d holds =
      let (r, found, agrees) = holds i (omega arith) (omega arith) in
      let (b, reads, rest) =
        read_run-Holds n (i + 1) lba (fill_sector buffer i r) source d
          (λ j p q. holds j (omega arith) (omega arith)) in
      (b, rw (read_run, found) reads, λ x. rest x ∙ refilled_step i n source buffer r agrees x)

  -- What `ata_write28` has written, `ata_read28` reads into the front of the buffer.
  pub ata_read-Holds :
      (lba count : ℕ) (buffer source : Array ℕ) (d : Disk)
      → lba ≤ 0x0fffffff
      → count ≢ 0
      → ((j : ℕ) → j < count → Holds (sector_at source j) (lba + j) d)
      → (b : Array ℕ) × (ata_read28 drive true lba count buffer d ≡ some b)
        × ((x : ℕ) → x < count * sector_size → b x ≡ source x)
  unfolding ata_read28
  ata_read-Holds lba count buffer source d low counts holds =
      let small : ltb 0x0fffffff lba ≡ false = le→ltb 0x0fffffff lba low in
      let some_count : (count == 0) ≡ false = ne→== count 0 counts in
      let (b, reads, content) =
        read_run-Holds count 0 lba buffer source d (λ j p q. holds j (omega arith)) in
      (b, rw (small, some_count) reads, λ x p. content x ∙ ground arith)
