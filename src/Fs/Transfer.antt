-- ===== src/Fs/Transfer.antt =====
-- The loops of kernel/fs.c that move the data of a file to the disk and back.
use bumbel_bee.Base.{
  ℕ, zero, suc, ◌+◌, ◌-◌, ◌*◌, ◌≤◌, ◌<◌, ◌≢◌, ◌≡◌, refl, ◌∙◌, ap, ◌⊎◌, inl, inr, Bool, true, false,
  Bool-cases, Option-cases, Array, ◌&&◌, ltb, leb, if◌then◌else◌, u32, arith,
}
use native.Mathlib.Decide.{ℕ_discrete, dec_lt}
use mathlib.Core.Path.{subst}
use bumbel_bee.Ata.{Drive, sector_size, ata_write28, ata_read28}
use bumbel_bee.Ata.Runs.{
  Holds, Holds-kept, ata_write_outside, ata_write_one-Holds, ata_read_one-agree, ata_read_one-Holds,
}
use bumbel_bee.Fs.Layout.{zeros}
use bumbel_bee.Fs.Files.{write_file, read_file, write_chunk, read_chunk, padded, copy_in}

-- what the sector `j` of a file is written with
abbrev pub file_sector : Array ℕ → ℕ → ℕ → Array ℕ
file_sector src bytes j =
    let offset = u32 (j * sector_size) in padded src offset (write_chunk bytes offset)

-- The end of the file system's sectors; so far, nothing wraps.
abbrev pub disk_end : ℕ
disk_end = 6144

u32_small : (n : ℕ) → n ≤ disk_end → u32 n ≡ n
u32_small n h = omega arith

-- the buffer with the bytes of the file from sector `i` on
abbrev overwritten : ℕ → Array ℕ → ℕ → Array ℕ → Array ℕ
overwritten i src size dst x = if leb (i * sector_size) x && ltb x size then src x else dst x

-- One round of the loop that reads fills in what is due from its sector.
overwritten_step :
    (i size : ℕ) (src dst b : Array ℕ)
    → i ≤ disk_end
    → i * sector_size ≤ size
    → size ≤ disk_end * sector_size
    → ((y : ℕ) → y < sector_size → b y ≡ file_sector src size i y)
    → (x : ℕ)
    → let offset = u32 (i * sector_size) in
      overwritten (i + 1) src size (copy_in dst offset b (read_chunk size offset)) x
      ≡ overwritten i src size dst x
overwritten_step i size src dst b fits starts small agrees x =
    let offset : u32 (i * sector_size) ≡ i * sector_size = omega arith in
    elim (dec_lt x (i * sector_size)) [
      | yes below ↦ rw offset (ground arith)
      | no from ↦ elim (dec_lt (x - i * sector_size) sector_size) [
        | yes within ↦
            let back : i * sector_size + (x - i * sector_size) ≡ x = omega arith in
            let here = agrees (x - i * sector_size) within in
            rw offset (ground (arith, ap src back, rw offset at here))
        | no above ↦ rw offset (ground arith)
      ]
    ]

module _ (drive : Drive) where
  open drive use {Disk, read_sector}

  pub write_file_outside :
      (n i : ℕ) (ready : Bool) (start : ℕ) (src : Array ℕ) (bytes : ℕ) (d : Disk) (other : ℕ)
      → start + i + n ≤ disk_end
      → (other < start + i) ⊎ (start + i + n ≤ other)
      → read_sector other (write_file drive n i ready start src bytes d).1 ≡ read_sector other d
  unfolding write_file
  write_file_outside zero i ready start src bytes d other fits h = refl
  write_file_outside (suc n) i ready start src bytes d other fits h =
      let first = ata_write28 drive ready (u32 (start + i)) 1 (file_sector src bytes i) d in
      let small = u32_small (start + i) (omega arith) in
      let here =
        ata_write_outside drive ready (u32 (start + i)) 1 other (file_sector src bytes i) d
          (omega arith) in
      elim (Bool-cases first.0) [
        | inl done ↦ rw done (
            write_file_outside n (i + 1) ready start src bytes first.1 other (omega arith)
              (omega arith)
            ∙ here)
        | inr failed ↦ rw failed here
      ]

  -- A file that was written holds its data, sector by sector.
  pub write_file-Holds :
      (n i : ℕ) (ready : Bool) (start : ℕ) (src : Array ℕ) (bytes : ℕ) (d : Disk)
      → start + i + n ≤ disk_end
      → (write_file drive n i ready start src bytes d).0 ≡ true
      → (j : ℕ) → i ≤ j
      → j < i + n
      → Holds drive
          (file_sector src bytes j)
          (start + j)
          (write_file drive n i ready start src bytes d).1
  unfolding write_file
  write_file-Holds zero i ready start src bytes d fits ok j p q = absurd (omega arith)
  write_file-Holds (suc n) i ready start src bytes d fits ok j p q =
      let first = ata_write28 drive ready (u32 (start + i)) 1 (file_sector src bytes i) d in
      let small = u32_small (start + i) (omega arith) in
      elim (Bool-cases first.0) [
        | inr failed ↦ absurd (ground arith)
        | inl done ↦
            let rest : (write_file drive n (i + 1) ready start src bytes first.1).0 ≡ true =
              ground arith in
            let kept =
              write_file_outside n (i + 1) ready start src bytes first.1 (start + i) (omega arith)
                (omega arith) in
            elim (ℕ_discrete i j) [
              | yes e ↦ rw done (
                  rw (← e) (
                    Holds-kept drive (file_sector src bytes i) (start + i) first.1
                      (write_file drive n (i + 1) ready start src bytes first.1).1 kept
                      (subst (λ a. Holds drive (file_sector src bytes i) a first.1) small
                        (ata_write_one-Holds drive ready (u32 (start + i)) (file_sector src bytes i)
                          d done))))
              | no ne ↦ rw done (
                  write_file-Holds n (i + 1) ready start src bytes first.1 (omega arith) rest j
                    (omega arith) (omega arith))
            ]
      ]

  -- A file reads the same from disks that agree on its sectors.
  pub read_file-agree :
      (n i : ℕ) (ready : Bool) (start size : ℕ) (dst : Array ℕ) (d d' : Disk)
      → start + i + n ≤ disk_end
      → ((j : ℕ) → start + i ≤ j → j < start + i + n → read_sector j d' ≡ read_sector j d)
      → read_file drive n i ready start size dst d' ≡ read_file drive n i ready start size dst d
  unfolding read_file
  read_file-agree zero i ready start size dst d d' fits same = refl
  read_file-agree (suc n) i ready start size dst d d' fits same =
      let small = u32_small (start + i) (omega arith) in
      let offset = u32 (i * sector_size) in
      let one =
        ata_read_one-agree drive ready (u32 (start + i)) zeros d d'
          (same (u32 (start + i)) (omega arith) (omega arith)) in
      rw (read_file, one)
        (elim (Option-cases (ata_read28 drive ready (u32 (start + i)) 1 zeros d)) [
          | inl fails ↦ rw (read_file, fails) refl
          | inr (b, reads) ↦
              rw (read_file, reads)
                (read_file-agree n (i + 1) ready start size
                  (copy_in dst offset b (read_chunk size offset)) d d' (omega arith)
                  (λ j p q. same j (omega arith) (omega arith)))
        ])

  -- A file whose sectors hold its data is read. Its last sector is the one that its size ends in.
  pub read_file-overwritten :
      (n i start size : ℕ) (src dst : Array ℕ) (d : Disk)
      → start + i + n ≤ disk_end
      → size ≤ (i + n) * sector_size
      → (i + n) * sector_size ≤ size + sector_size
      → ((j : ℕ) → i ≤ j → j < i + n → Holds drive (file_sector src size j) (start + j) d)
      → ((read_file drive n i true start size dst d).0 ≡ true)
        × ((x : ℕ) → (read_file drive n i true start size dst d).1 x ≡ overwritten i src size dst x)
  unfolding read_file
  read_file-overwritten zero i start size src dst d fits above below holds =
      (refl, λ x. ground arith)
  read_file-overwritten (suc n) i start size src dst d fits above below holds =
      let small = u32_small (start + i) (omega arith) in
      let offset = u32 (i * sector_size) in
      let (b, reads, agrees) =
        ata_read_one-Holds drive (u32 (start + i)) zeros (file_sector src size i) d (omega arith)
          (rw small (holds i (omega arith) (omega arith))) in
      let dst' = copy_in dst offset b (read_chunk size offset) in
      let (ok, rest) =
        read_file-overwritten n (i + 1) start size src dst' d (omega arith) (omega arith)
          (omega arith) (λ j p q. holds j (omega arith) (omega arith)) in
      rw (read_file, reads)
        (
          ok,
          λ x.
              rest x
              ∙ overwritten_step i size src dst b (omega arith) (omega arith) (omega arith) agrees
                  x,
        )

  -- A file of one sector or more is written by a driver that is ready alone.
  pub write_file_ready :
      (n i : ℕ) (ready : Bool) (start : ℕ) (src : Array ℕ) (bytes : ℕ) (d : Disk)
      → n ≢ 0
      → (write_file drive n i ready start src bytes d).0 ≡ true
      → ready ≡ true
  unfolding write_file ata_write28
  write_file_ready zero i ready start src bytes d some_sector ok = absurd (some_sector refl)
  write_file_ready (suc n) i true start src bytes d some_sector ok = refl
  write_file_ready (suc n) i false start src bytes d some_sector ok = ok
