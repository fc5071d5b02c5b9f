-- ===== src/Tests/Image.antt =====
-- The theorem on ELF images, applied to a header with one segment.
use bumbel_bee.Base.{
  ℕ, zero, suc, ◌+◌, ◌*◌, ◌^◌, ◌≤◌, ◌<◌, ◌≡◌, ◌≢◌, refl, Array, some, write, first_from, arith,
}
use bumbel_bee.Bytes.{load_le}
use bumbel_bee.Elf.{ElfInfo, ehdr_of, phdr_at, phdr_size, elf_parse_image, scan_segments, parsed}
use bumbel_bee.Elf.Segments.{Reaches, elf_range-Reaches}

abbrev ident : Array ℕ → Array ℕ
ident m = write (write (write (write (write (write m 0 0x7f) 1 0x45) 2 0x4c) 3 0x46) 4 2) 5 1

-- the other fields of the header: one program header, at offset 64
abbrev header : Array ℕ → Array ℕ
header m = write (write (write (write (write (write m 16 2) 18 62) 26 0x40) 32 64) 54 56) 56 1

-- the program header: 32 bytes from 0x40000000 on, of which 16 are in the file
abbrev segment : Array ℕ → Array ℕ
segment m = write (write (write (write m 64 1) 83 0x40) 96 16) 104 32

abbrev image : Array ℕ
image = segment (header (ident (λ i. 0)))

abbrev image_info : ElfInfo
image_info = record {
  type = 2;
  machine = 62;
  phnum = 1;
  entry = 0x400000;
  first_vaddr = 0x40000000;
  last_vaddr = 0x40000020;
  load_offset = 0;
  load_filesz = 16;
  load_memsz = 32;
}

image-parses : elf_parse_image (some image) 120 ≡ some image_info
unfolding elf_parse_image load_le phdr_at scan_segments parsed first_from
image-parses = refl

image-not_null :
    (i : ℕ)
    → i < (ehdr_of image).phnum
    → (phdr_at image (ehdr_of image).phoff i).type ≡ 1
    → (phdr_at image (ehdr_of image).phoff i).vaddr ≢ 0
unfolding load_le phdr_at
image-not_null zero lt load = λ z. omega (arith, z)
image-not_null (suc i) lt load = absurd (omega arith)

image-loads : (phdr_at image (ehdr_of image).phoff 0).type ≡ 1
unfolding load_le phdr_at
image-loads = refl

image-whole :
    (phdr_at image (ehdr_of image).phoff 0).vaddr + (phdr_at image (ehdr_of image).phoff 0).memsz
    < 2 ^ 64
unfolding load_le phdr_at
image-whole = omega arith

image-fits : (ehdr_of image).phoff + (ehdr_of image).phnum * phdr_size < 2 ^ 64
unfolding load_le
image-fits = omega arith

image-one : 0 < (ehdr_of image).phnum
unfolding load_le
image-one = omega arith

elf_range-Reaches_example :
    ((ehdr_of image).phoff + (0 + 1) * phdr_size ≤ 120)
    × Reaches 0x40000000 0x40000020 (phdr_at image (ehdr_of image).phoff 0)
elf_range-Reaches_example =
    elf_range-Reaches image 120 image_info 0 image-fits image-not_null image-parses image-one
      image-loads image-whole
