-- ===== src/Fs/Reload.antt =====
-- What kernel/fs.c flushes, it loads again.
use bumbel_bee.Base.{
  ℕ, ◌+◌, ◌*◌, ◌<◌, ◌≡◌, refl, ◌∙◌, sym, ap₂, true, Bool-cases, Array, length, some, inl, inr,
  arith,
}
use mathlib.Core.Path.{subst}
use bumbel_bee.Data.{Inode, FsState, fs_start_lba, fs_inode_sectors, fs_max_inodes}
use bumbel_bee.Bytes.{Fits}
use bumbel_bee.Ata.{Drive, sector_at, ata_write28, ata_read28}
use bumbel_bee.Ata.Runs.{Holds, Holds-kept, ata_write-Holds, ata_write_outside, ata_read-Holds}
use bumbel_bee.Fs.Layout.{
  zeros, superblock_fields, encode_superblock, decode_superblock, inode_fields, encode_inode,
  encode_inodes, decode_inodes, name_size, inode_size, fs_flush_inodes, fs_flush_superblock,
  fs_load,
}
use bumbel_bee.Fs.Sessions.{flush_both}
use bumbel_bee.Fs.Codec.{IsText, superblock_round_trip, inode_round_trip}

-- The fields are within their widths, and the name is a string of its field.
pub record IsStorable (n : Inode) : Type 0 where
  pub fits : Fits (inode_fields n)
  pub text : IsText n.name
  pub short : length n.name < name_size

-- The two states have the same superblock and the same inodes.
pub record SameTables {Disk : Type 0} (s t : FsState Disk) : Type 0 where
  pub superblock : s.superblock ≡ t.superblock
  pub inodes : (i : ℕ) → i < fs_max_inodes → s.inodes i ≡ t.inodes i

module _ (drive : Drive) where
  open drive use {Disk, read_sector}

  -- The superblock and the table of a state, as a disk holds them.
  HoldsTables : FsState Disk → Disk → Type 0
  HoldsTables s d =
      ((j : ℕ)
        → j < 1
        → Holds drive (sector_at (encode_superblock s.superblock) j) (fs_start_lba + j) d)
      × ((j : ℕ)
          → j < fs_inode_sectors
          → Holds drive (sector_at (encode_inodes s.inodes) j) (fs_start_lba + 1 + j) d)

  flush_both-HoldsTables :
      (s : FsState Disk) → (flush_both drive s).0 ≡ true → HoldsTables s (flush_both drive s).1.disk
  unfolding flush_both fs_flush_inodes fs_flush_superblock HoldsTables
  flush_both-HoldsTables s flushed =
      let block = encode_superblock s.superblock in
      let inodes = encode_inodes s.inodes in
      let table = ata_write28 drive s.ata_ready (fs_start_lba + 1) fs_inode_sectors inodes s.disk in
      let both = ata_write28 drive s.ata_ready fs_start_lba 1 block table.1 in
      elim (Bool-cases table.0) [
        | inr fails ↦ absurd (ground arith)
        | inl ok ↦
            let last : both.0 ≡ true = ground arith in
            rw ok (
              ata_write-Holds drive s.ata_ready fs_start_lba 1 block table.1 last,
              λ j lt.
                  Holds-kept drive (sector_at inodes j) (fs_start_lba + 1 + j) table.1 both.1
                    (ata_write_outside drive s.ata_ready fs_start_lba 1 (fs_start_lba + 1 + j) block
                      table.1 (inr (omega arith)))
                    (ata_write-Holds drive s.ata_ready (fs_start_lba + 1) fs_inode_sectors inodes
                      s.disk ok j lt),
            )
      ]

  load_reads :
      (t : FsState Disk) (b m : Array ℕ)
      → ata_read28 drive t.ata_ready fs_start_lba 1 zeros t.disk ≡ some b
      → ata_read28 drive t.ata_ready (fs_start_lba + 1) fs_inode_sectors zeros t.disk ≡ some m
      → fs_load drive t
        ≡ (true, record t { superblock = decode_superblock b; inodes = decode_inodes m })
  unfolding fs_load
  load_reads t b m reads_b reads_m = rw (fs_load, reads_b, reads_m) refl

  load-HoldsTables :
      (s t : FsState Disk)
      → Fits (superblock_fields s.superblock)
      → ((i : ℕ) → i < fs_max_inodes → IsStorable (s.inodes i))
      → t.ata_ready ≡ true
      → HoldsTables s t.disk
      → ((fs_load drive t).0 ≡ true) × SameTables (fs_load drive t).1 s
  unfolding fs_load HoldsTables
  load-HoldsTables s t numbers storable ready (holds_block, holds_table) =
      let block = encode_superblock s.superblock in
      let inodes = encode_inodes s.inodes in
      let (b, reads_b, same_b) =
        ata_read-Holds drive fs_start_lba 1 zeros block t.disk (omega arith) (omega arith)
          holds_block in
      let (m, reads_m, same_m) =
        ata_read-Holds drive (fs_start_lba + 1) fs_inode_sectors zeros inodes t.disk (omega arith)
          (omega arith) holds_table in
      let table = λ (i : ℕ) (lt : i < fs_max_inodes).
        let n = storable i lt in
        inode_round_trip (s.inodes i) (λ x. m (i * inode_size + x)) n.fits n.text n.short
          (λ x p.
            same_m (i * inode_size + x) (omega arith)
            ∙ ap₂ (λ k y. encode_inode (s.inodes k) y) (omega arith) (omega arith)) in
      let loaded : fs_load drive t
          ≡ (true, record t { superblock = decode_superblock b; inodes = decode_inodes m }) =
        load_reads t b m (rw ready reads_b) (rw ready reads_m) in
      rw loaded (
        refl,
        record {
          superblock = superblock_round_trip s.superblock b numbers (λ x p. same_b x (omega arith));
          inodes = table;
        },
      )

  -- What was flushed to the disk is loaded from it: after a flush that succeeds, of a superblock
  -- and inodes whose fields are within their widths and whose names are strings of 23 bytes at
  -- most, a load from that disk succeeds, in any other state in which the disk is ready, and gives
  -- the same superblock and the same 32 inodes.
  pub load-flush :
      (s t : FsState Disk)
      → Fits (superblock_fields s.superblock)
      → ((i : ℕ) → i < fs_max_inodes → IsStorable (s.inodes i))
      → (flush_both drive s).0 ≡ true
      → t.ata_ready ≡ true
      → t.disk ≡ (flush_both drive s).1.disk
      → ((fs_load drive t).0 ≡ true) × SameTables (fs_load drive t).1 s
  load-flush s t numbers storable flushed ready same_disk =
      load-HoldsTables s t numbers storable ready
        (subst (HoldsTables s) (sym same_disk) (flush_both-HoldsTables s flushed))
