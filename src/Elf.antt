-- ===== src/Elf.antt =====
-- kernel/elf.c: what the loader reads of an ELF image. The image is its bytes by their offset from
-- the image's address; an offset wraps like the pointer it stands for. The pointer `out` is not null.
pub mod Segments
use bumbel_bee.Base.{
  ℕ, zero, suc, ◌+◌, ◌*◌, ◌%◌, ◌^◌, Bool, true, false, not, ◌&&◌, ◌||◌, Option, none, some, Array,
  first_from, ◌==◌, ltb, if◌then◌else◌, u64,
}
use bumbel_bee.Bytes.{load_le}

-- the fields of struct elf64_ehdr that are read
pub record Ehdr : Type 0 where
  pub ident : Array ℕ
  pub type : ℕ
  pub machine : ℕ
  pub entry : ℕ
  pub phoff : ℕ
  pub phentsize : ℕ
  pub phnum : ℕ

-- the fields of struct elf64_phdr that are read
pub record Phdr : Type 0 where
  pub type : ℕ
  pub offset : ℕ
  pub vaddr : ℕ
  pub filesz : ℕ
  pub memsz : ℕ

-- struct elf_info
pub record ElfInfo : Type 0 where
  pub type : ℕ
  pub machine : ℕ
  pub phnum : ℕ
  pub entry : ℕ
  pub first_vaddr : ℕ
  pub last_vaddr : ℕ
  pub load_offset : ℕ
  pub load_filesz : ℕ
  pub load_memsz : ℕ

abbrev pub ehdr_size : ℕ
ehdr_size = 64

abbrev pub phdr_size : ℕ
phdr_size = 56

abbrev pub elf_machine_x86_64 : ℕ
elf_machine_x86_64 = 62

abbrev pub ehdr_of : Array ℕ → Ehdr
ehdr_of image = record {
  ident = image;
  type = load_le image 16 2;
  machine = load_le image 18 2;
  entry = load_le image 24 8;
  phoff = load_le image 32 8;
  phentsize = load_le image 54 2;
  phnum = load_le image 56 2;
}

-- `phdr[i]`
unfoldable pub phdr_at : Array ℕ → ℕ → ℕ → Phdr
phdr_at image phoff i =
    let a = u64 (phoff + i * phdr_size) in
    record {
      type = load_le image a 4;
      offset = load_le image (a + 8) 8;
      vaddr = load_le image (a + 16) 8;
      filesz = load_le image (a + 32) 8;
      memsz = load_le image (a + 40) 8;
    }

-- One round of the first loop, on `first_vaddr` and `last_vaddr`. What it writes through `out` is
-- cleared after the loop.
abbrev pub scan_segment : Phdr → ℕ × ℕ → ℕ × ℕ
scan_segment ph (first, last) =
    let end = u64 (ph.vaddr + ph.memsz) in
    if ph.type == 1
    then (
      if first == 0 || ltb ph.vaddr first then ph.vaddr else first,
      if ltb last end then end else last,
    )
    else (first, last)

unfoldable pub scan_segments : (ℕ → Phdr) → ℕ → ℕ → ℕ × ℕ → ℕ × ℕ
scan_segments ph zero i acc = acc
scan_segments ph (suc n) i acc = scan_segments ph n (i + 1) (scan_segment (ph i) acc)

-- the tests on the header, with those on its identification
abbrev pub header_ok : ℕ → Ehdr → Bool
header_ok size h =
    let magic = h.ident 0 == 0x7f && h.ident 1 == 0x45 && h.ident 2 == 0x4c && h.ident 3 == 0x46 in
    let class_ok = h.ident 4 == 2 && h.ident 5 == 1 in
    let kind_ok = h.machine == elf_machine_x86_64 && h.phentsize == phdr_size in
    let table_ok = not (ltb size (u64 (h.phoff + h.phnum * phdr_size))) in
    magic && class_ok && kind_ok && table_ok

-- `out` once the segments are known
unfoldable pub parsed : Ehdr → (ℕ → Phdr) → ℕ × ℕ → ElfInfo
parsed h ph (first, last) =
    let info : ElfInfo = record {
      type = h.type;
      machine = h.machine;
      phnum = h.phnum;
      entry = h.entry;
      first_vaddr = first;
      last_vaddr = last;
      load_offset = 0;
      load_filesz = 0;
      load_memsz = 0;
    } in
    let load = first_from (λ i. (ph i).type == 1 && (ph i).vaddr == first) h.phnum 0 in
    if first == 0 then info else elim load [
      | none ↦ info
      | some i ↦ record info {
        load_offset = (ph i).offset;
        load_filesz = (ph i).filesz;
        load_memsz = (ph i).memsz;
      }
    ]

-- `none` is -1, or a null image.
unfoldable pub elf_parse_image : Option (Array ℕ) → ℕ → Option ElfInfo
elf_parse_image none size = none
elf_parse_image (some image) size =
    let h = ehdr_of image in
    let ph = phdr_at image h.phoff in
    if ltb size ehdr_size
    then none
    else (if header_ok size h then some (parsed h ph (scan_segments ph h.phnum 0 (0, 0))) else none)
