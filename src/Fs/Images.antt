-- ===== src/Fs/Images.antt =====
-- The images of programs that kernel/fs.c builds are ones that kernel/elf.c accepts.
use bumbel_bee.Base.{
  ℕ, ◌+◌, ◌≤◌, ◌<◌, ◌^◌, ◌≡◌, ◌≢◌, refl, ◌∙◌, sym, ap, true, false, List, Array, length, some,
  if◌then◌else◌, ne→==, ==_refl, ltb, lt→ltb, le→ltb, first_from, u64, arith,
}
use bumbel_bee.Bytes.{
  Fits, load_le, values, load_fields, load_fields_below, load_fields-store_fields, store_fields,
  store_fields_outside, store_bytes_outside,
}
use bumbel_bee.Elf.{
  Ehdr, Phdr, ElfInfo, ehdr_of, phdr_at, header_ok, ehdr_size, elf_parse_image, scan_segments,
  parsed,
}
use bumbel_bee.Fs.Codec.{field}
use bumbel_bee.Fs.Execs.{
  put_image, ehdr_fields, phdr_fields, code_off, stub_exec_code, ring3demo_code,
  build_stub_exec_image, build_ring3demo_image,
}
use bumbel_bee.Aspace.{user_base}

load_byte : (m : Array ℕ) (a : ℕ) → load_le m a 1 ≡ m a
unfolding load_le
load_byte m a = omega arith

module _ (entry vaddr : ℕ) (code : List ℕ) (out : Array ℕ) where
  abbrev pub image : Array ℕ
  unfolding put_image
  image = put_image entry vaddr code out

  abbrev pub size : ℕ
  size = code_off + length code

  image_ehdr : entry < 2 ^ 64 → load_fields (ehdr_fields entry) image 0 ≡ values (ehdr_fields entry)
  unfolding load_fields put_image Fits
  image_ehdr small =
      let header = store_fields (ehdr_fields entry) out 0 in
      let both = store_fields (phdr_fields vaddr size) header ehdr_size in
      load_fields_below (ehdr_fields entry) image header 0 (λ x p q.
        store_bytes_outside code both code_off x (omega arith)
        ∙ store_fields_outside (phdr_fields vaddr size) header ehdr_size x (omega arith))
      ∙ load_fields-store_fields (ehdr_fields entry) out 0 (
        omega arith,
        (
          omega arith,
          (
            omega arith,
            (
              omega arith,
              (
                omega arith,
                (
                  omega arith,
                  (
                    omega arith,
                    (
                      omega arith,
                      (
                        omega arith,
                        (
                          omega arith,
                          (
                            omega arith,
                            (
                              omega arith,
                              (
                                omega arith,
                                (
                                  omega arith,
                                  (
                                    omega arith,
                                    (
                                      omega arith,
                                      (
                                        omega arith,
                                        (
                                          omega arith,
                                          (omega arith, (omega arith, (omega arith, record {}))),
                                        ),
                                      ),
                                    ),
                                  ),
                                ),
                              ),
                            ),
                          ),
                        ),
                      ),
                    ),
                  ),
                ),
              ),
            ),
          ),
        ),
      )

  image_phdr :
      vaddr < 2 ^ 64
      → size < 2 ^ 64
      → load_fields (phdr_fields vaddr size) image ehdr_size ≡ values (phdr_fields vaddr size)
  unfolding load_fields put_image Fits
  image_phdr low small =
      let header = store_fields (ehdr_fields entry) out 0 in
      let both = store_fields (phdr_fields vaddr size) header ehdr_size in
      load_fields_below (phdr_fields vaddr size) image both ehdr_size
        (λ x p q. store_bytes_outside code both code_off x (omega arith))
      ∙ load_fields-store_fields (phdr_fields vaddr size) header ehdr_size (
        omega arith,
        (
          omega arith,
          (
            omega arith,
            (omega arith, (omega arith, (omega arith, (omega arith, (omega arith, record {}))))),
          ),
        ),
      )

  header_from : List ℕ → Ehdr
  unfolding field
  header_from l = record {
    ident = image;
    type = field 8 l;
    machine = field 9 l;
    entry = field 11 l;
    phoff = field 12 l;
    phentsize = field 16 l;
    phnum = field 17 l;
  }

  segment_from : List ℕ → Phdr
  unfolding field
  segment_from l = record {
    type = field 0 l;
    offset = field 2 l;
    vaddr = field 3 l;
    filesz = field 5 l;
    memsz = field 6 l;
  }

  header_of_image : entry < 2 ^ 64 → ehdr_of image ≡ header_from (values (ehdr_fields entry))
  unfolding header_from load_fields
  header_of_image small = ap header_from (image_ehdr small)

  segment_of_image :
      vaddr < 2 ^ 64
      → size < 2 ^ 64
      → phdr_at image ehdr_size 0 ≡ segment_from (values (phdr_fields vaddr size))
  unfolding segment_from load_fields phdr_at
  segment_of_image low small = ap segment_from (image_phdr low small)

  identified : entry < 2 ^ 64 → header_ok size (ehdr_of image) ≡ true
  unfolding header_from load_fields field
  identified small =
      let e = image_ehdr small in
      let byte = λ (k : ℕ). load_byte image k in
      let i0 = sym (byte 0) ∙ ap (field 0) e in
      let i1 = sym (byte 1) ∙ ap (field 1) e in
      let i2 = sym (byte 2) ∙ ap (field 2) e in
      let i3 = sym (byte 3) ∙ ap (field 3) e in
      let i4 = sym (byte 4) ∙ ap (field 4) e in
      let i5 = sym (byte 5) ∙ ap (field 5) e in
      rw (i0, i1, i2, i3, i4, i5, ap (field 9) e, ap (field 16) e, ap (field 12) e, ap (field 17) e)
        (ground arith)

  -- what the loader reports of the image
  unfoldable pub image_info : ElfInfo
  image_info = record {
    type = 2;
    machine = 62;
    phnum = 1;
    entry = entry;
    first_vaddr = vaddr;
    last_vaddr = vaddr + size;
    load_offset = 0;
    load_filesz = size;
    load_memsz = size;
  }

  pub image-parses :
      entry < 2 ^ 64
      → vaddr ≢ 0
      → vaddr + size < 2 ^ 64
      → elf_parse_image (some image) size ≡ some image_info
  unfolding elf_parse_image scan_segments parsed first_from header_from segment_from image_info
      field
  image-parses small placed ends =
      let head = header_of_image small in
      let segment = segment_of_image (omega arith) (omega arith) in
      let big : ltb size ehdr_size ≡ false = le→ltb size ehdr_size (omega arith) in
      let last : (if ltb 0 (u64 (vaddr + size)) then u64 (vaddr + size) else 0) ≡ vaddr + size =
        ground arith in
      let report = λ (h : Ehdr).
        parsed h (phdr_at image h.phoff) (scan_segments (phdr_at image h.phoff) h.phnum 0 (0, 0)) in
      let done : report (header_from (values (ehdr_fields entry))) ≡ image_info =
        rw (segment, ne→== vaddr 0 placed, ==_refl vaddr, segment)
          (ap (λ l. record image_info { last_vaddr = l }) last) in
      rw (elf_parse_image, big, identified small) (ap (λ h. some (report h)) head ∙ ap some done)

-- With room for 123 bytes for a stub, and for 194 bytes for the demo, the builders give images that
-- the loader accepts and reports as they are meant: one segment, of the whole image, at the base of
-- the program, and the entry. With less room they give no bytes and leave the buffer.
pub built_images_parse :
    (out : Array ℕ) (cap entry : ℕ)
    → entry < 2 ^ 64
    → let stub = build_stub_exec_image out cap entry in
      let demo = build_ring3demo_image out cap in
      (123 ≤ cap
        → elf_parse_image (some stub.1) stub.0
          ≡ some (image_info entry 0x401000 stub_exec_code out))
      × (194 ≤ cap
          → elf_parse_image (some demo.1) demo.0
            ≡ some (image_info (user_base + code_off) user_base ring3demo_code out))
      × (cap < 123 → stub ≡ (0, out))
      × (cap < 194 → demo ≡ (0, out))
unfolding build_stub_exec_image build_ring3demo_image
built_images_parse out cap entry small = (
  (λ room.
      let fits : ltb cap (code_off + length stub_exec_code) ≡ false =
        le→ltb cap (code_off + length stub_exec_code) (omega arith) in
      rw fits (image-parses entry 0x401000 stub_exec_code out small (omega arith) (omega arith))),
  (λ room.
      let fits : ltb cap (code_off + length ring3demo_code) ≡ false =
        le→ltb cap (code_off + length ring3demo_code) (omega arith) in
      rw fits (
        image-parses (user_base + code_off) user_base ring3demo_code out (omega arith) (omega arith)
          (omega arith))),
  (λ tight.
      let full : ltb cap (code_off + length stub_exec_code) ≡ true =
        lt→ltb cap (code_off + length stub_exec_code) (omega arith) in
      rw full refl),
  λ tight.
      let full : ltb cap (code_off + length ring3demo_code) ≡ true =
        lt→ltb cap (code_off + length ring3demo_code) (omega arith) in
      rw full refl,
)
