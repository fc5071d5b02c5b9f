-- ===== src/Fs/Execs.antt =====
-- kernel/fs.c: the programs that are put on the disk, reading them, and the start of the file system.
use bumbel_bee.Base.{
  ℕ, ◌+◌, Bool, true, false, not, ◌&&◌, Option, none, some, List, [], ◌∷◌, Array, ◌==◌, ltb,
  if◌then◌else◌, length, codes,
}
use bumbel_bee.Data.{FsState, fs_magic, fs_version, inode_type_exec}
use bumbel_bee.Aspace.{user_base}
use bumbel_bee.Bytes.{store_fields, store_bytes}
use bumbel_bee.Strings.{copy_name}
use bumbel_bee.Elf.{ehdr_size, phdr_size}
use bumbel_bee.Ata.{Drive, ata_init}
use bumbel_bee.Fs.Layout.{
  zeros, name_size, fs_load, fs_format, fs_flush_inodes, fs_flush_superblock,
}
use bumbel_bee.Fs.Files.{fs_find_exec, fs_alloc_inode, fs_write_raw_file, read_found, set_inode}

abbrev pub ring3demo_code : List ℕ
ring3demo_code =
    0x66 ∷ 0xb8 ∷ 0x33 ∷ 0x00 ∷ 0x8e ∷ 0xd8 ∷ 0x8e ∷ 0xc0 ∷ 0x8e ∷ 0xe0 ∷ 0x8e ∷ 0xe8 ∷ 0xb8 ∷ 0x01
    ∷ 0x00 ∷ 0x00 ∷ 0x00 ∷ 0x48 ∷ 0x8d ∷ 0x1d ∷ 0x11 ∷ 0x00 ∷ 0x00 ∷ 0x00 ∷ 0xb9 ∷ 0x21 ∷ 0x00
    ∷ 0x00 ∷ 0x00 ∷ 0xcd ∷ 0x80 ∷ 0xb8 ∷ 0x03 ∷ 0x00 ∷ 0x00 ∷ 0x00 ∷ 0xcd ∷ 0x80 ∷ 0xf4 ∷ 0xeb
    ∷ 0xfd ∷ 0x72 ∷ 0x69 ∷ 0x6e ∷ 0x67 ∷ 0x33 ∷ 0x20 ∷ 0x66 ∷ 0x69 ∷ 0x6c ∷ 0x65 ∷ 0x2d ∷ 0x62
    ∷ 0x61 ∷ 0x63 ∷ 0x6b ∷ 0x65 ∷ 0x64 ∷ 0x20 ∷ 0x65 ∷ 0x6c ∷ 0x66 ∷ 0x20 ∷ 0x73 ∷ 0x61 ∷ 0x79
    ∷ 0x73 ∷ 0x20 ∷ 0x68 ∷ 0x65 ∷ 0x6c ∷ 0x6c ∷ 0x6f ∷ 0x0a ∷ []

abbrev pub stub_exec_code : List ℕ
stub_exec_code = 0xf4 ∷ 0xeb ∷ 0xfd ∷ []

-- struct exec_elf64_ehdr as both builders fill it in
abbrev pub ehdr_fields : ℕ → List (ℕ × ℕ)
ehdr_fields entry =
    (1, 0x7f)
    ∷ (1, 0x45)
    ∷ (1, 0x4c)
    ∷ (1, 0x46)
    ∷ (1, 2)
    ∷ (1, 1)
    ∷ (1, 1)
    ∷ (9, 0)
    ∷ (2, 2)
    ∷ (2, 62)
    ∷ (4, 1)
    ∷ (8, entry)
    ∷ (8, ehdr_size)
    ∷ (8, 0)
    ∷ (4, 0)
    ∷ (2, ehdr_size)
    ∷ (2, phdr_size)
    ∷ (2, 1)
    ∷ (2, 0)
    ∷ (2, 0)
    ∷ (2, 0)
    ∷ []

-- struct exec_elf64_phdr as both fill it in
abbrev pub phdr_fields : ℕ → ℕ → List (ℕ × ℕ)
phdr_fields vaddr size =
    (4, 1) ∷ (4, 5) ∷ (8, 0) ∷ (8, vaddr) ∷ (8, vaddr) ∷ (8, size) ∷ (8, size) ∷ (8, 0x1000) ∷ []

-- sizeof(ehdr) + sizeof(phdr)
abbrev pub code_off : ℕ
code_off = ehdr_size + phdr_size

-- the three copies to `out`
unfoldable pub put_image : ℕ → ℕ → List ℕ → Array ℕ → Array ℕ
put_image entry vaddr code out =
    let size = code_off + length code in
    let headers =
      store_fields (phdr_fields vaddr size) (store_fields (ehdr_fields entry) out 0) ehdr_size in
    store_bytes headers code_off code

-- Both builders return how many bytes they wrote; `out` is not null.
unfoldable pub build_ring3demo_image : Array ℕ → ℕ → ℕ × Array ℕ
unfolding put_image
build_ring3demo_image out cap = if ltb cap (code_off + length ring3demo_code) then (0, out) else (
  code_off + length ring3demo_code,
  put_image (user_base + code_off) user_base ring3demo_code out,
)

unfoldable pub build_stub_exec_image : Array ℕ → ℕ → ℕ → ℕ × Array ℕ
unfolding put_image
build_stub_exec_image out cap entry =
    if ltb cap (code_off + length stub_exec_code)
    then (0, out)
    else (code_off + length stub_exec_code, put_image entry 0x401000 stub_exec_code out)

module _ (drive : Drive) where
  open drive use {Disk}

  -- `false` is -1. The data is not null.
  unfoldable pub fs_seed_exec_file : List ℕ → Array ℕ → ℕ → FsState Disk → Bool × FsState Disk
  unfolding fs_find_exec fs_alloc_inode fs_write_raw_file copy_name
  fs_seed_exec_file path src bytes s = elim (fs_find_exec path s.inodes) [
    | some i ↦ (true, s)
    | none ↦ elim (fs_alloc_inode drive s) [
      | none ↦ (false, s)
      | some (i, taken) ↦
          let inode = record (taken.inodes i) {
            type = inode_type_exec;
            name = copy_name name_size path;
          } in
          let (ok, s') = fs_write_raw_file drive i src bytes (set_inode drive i inode taken) in
          if ok
          then (true, s')
          else (false, set_inode drive i (record (s'.inodes i) { used = 0 }) s')
    ]
  ]

  -- One of the stubs of `fs_seed_execs`, in the buffer of 128 bytes.
  unfoldable pub seed_stub : List ℕ → ℕ → Array ℕ × FsState Disk → Array ℕ × FsState Disk
  unfolding fs_seed_exec_file build_stub_exec_image
  seed_stub path entry (stub_image, s) =
      let (bytes, image) = build_stub_exec_image stub_image 128 entry in
      (image, if bytes == 0 then s else (fs_seed_exec_file path image bytes s).1)

  unfoldable pub fs_seed_execs : FsState Disk → FsState Disk
  unfolding fs_seed_exec_file build_ring3demo_image seed_stub
  fs_seed_execs s =
      let (bytes, image) = build_ring3demo_image zeros 256 in
      let demo =
        if bytes == 0 then s else (fs_seed_exec_file (codes "/bin/ring3demo") image bytes s).1 in
      let ping = seed_stub (codes "/bin/ping") 0x401000 (zeros, demo) in
      (seed_stub (codes "/bin/netstat") 0x4010c0 (seed_stub (codes "/bin/ps") 0x401080 ping)).1

  -- The end of `fs_init`, once the table is there.
  unfoldable pub bring_online : FsState Disk → FsState Disk
  unfolding fs_seed_execs fs_flush_inodes fs_flush_superblock
  bring_online s =
      let seeded = fs_seed_execs (record s { fs_online = true }) in
      (fs_flush_superblock drive (fs_flush_inodes drive seeded).1).1

  unfoldable pub is_formatted : FsState Disk → Bool
  is_formatted s = s.superblock.magic == fs_magic && s.superblock.version == fs_version

  -- `fs_init`, less the lines that it prints
  unfoldable pub fs_init : FsState Disk → FsState Disk
  unfolding ata_init fs_load fs_format is_formatted bring_online
  fs_init s =
      let off = record s { ata_ready = ata_init drive s.disk; fs_online = false } in
      let (loaded, s') = fs_load drive off in
      let (formatted, fresh) = fs_format drive s' in
      let (reloaded, again) = fs_load drive fresh in
      if not off.ata_ready
      then off
      else (if loaded && is_formatted s'
          then bring_online s'
          else (if formatted then (if reloaded then bring_online again else again) else fresh))

  -- The result, the buffer, and what is stored through `bytes`; neither pointer is null.
  unfoldable pub fs_read_exec_file : List ℕ → Array ℕ → FsState Disk → Bool × Array ℕ × Option ℕ
  unfolding fs_find_exec read_found
  fs_read_exec_file path buffer s = read_found drive (fs_find_exec path s.inodes) buffer s
