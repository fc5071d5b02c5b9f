-- ===== src/Elf/Segments.antt =====
-- The addresses that the loader finds in an ELF image.
use bumbel_bee.Base.{
  ℕ, zero, suc, ◌+◌, ◌*◌, ◌^◌, ◌≤◌, ◌<◌, ◌≡◌, ◌≢◌, refl, ◌∙◌, sym, true, ◌&&◌, Bool-cases, inl, inr,
  Option-cases, none, some, Array, first_from, ◌==◌, ltb, u64, arith,
}
use mathlib.Core.Path.{subst}
use native.Mathlib.Decide.{ℕ_discrete}
use bumbel_bee.Elf.{
  Ehdr, Phdr, ElfInfo, ehdr_size, phdr_size, ehdr_of, phdr_at, scan_segment, scan_segments,
  header_ok, parsed, elf_parse_image,
}

-- The address range that is found reaches over the segment, whose end is taken round the address
-- space.
record Wraps (first last : ℕ) (ph : Phdr) : Type 0 where
  some_first : first ≢ 0
  starts : first ≤ ph.vaddr
  ends : u64 (ph.vaddr + ph.memsz) ≤ last

-- The address range that is found reaches from the segment's start to its end.
pub record Reaches (first last : ℕ) (ph : Phdr) : Type 0 where
  pub some_first : first ≢ 0
  pub starts : first ≤ ph.vaddr
  pub ends : ph.vaddr + ph.memsz ≤ last

record Scanned (ph : ℕ → Phdr) (n i : ℕ) (acc res : ℕ × ℕ) : Type 0 where
  grows : acc.1 ≤ res.1
  shrinks : acc.0 ≢ 0 → (res.0 ≢ 0) × (res.0 ≤ acc.0)
  reaches : (j : ℕ) → i ≤ j → j < i + n → (ph j).type ≡ 1 → Wraps res.0 res.1 (ph j)

scan_segment-Wraps :
    (ph : Phdr) (acc : ℕ × ℕ)
    → (ph.type ≡ 1 → ph.vaddr ≢ 0)
    → (acc.1 ≤ (scan_segment ph acc).1)
      × (acc.0 ≢ 0 → ((scan_segment ph acc).0 ≢ 0) × ((scan_segment ph acc).0 ≤ acc.0))
      × (ph.type ≡ 1 → Wraps (scan_segment ph acc).0 (scan_segment ph acc).1 ph)
scan_segment-Wraps ph (first, last) nz =
    (ground arith, λ f. (ground arith, ground arith), λ t. ground arith)

scan_segments-Scanned :
    (ph : ℕ → Phdr) (n i : ℕ) (acc : ℕ × ℕ)
    → ((j : ℕ) → j < i + n → (ph j).type ≡ 1 → (ph j).vaddr ≢ 0)
    → Scanned ph n i acc (scan_segments ph n i acc)
unfolding scan_segments
scan_segments-Scanned ph zero i acc nz = record {
  grows = omega arith;
  shrinks = λ f. (f, omega arith);
  reaches = λ j a b. absurd (omega arith);
}
scan_segments-Scanned ph (suc n) i acc nz =
    let (g, sh, r) = scan_segment-Wraps (ph i) acc (nz i (omega arith)) in
    let rest =
      scan_segments-Scanned ph n (i + 1) (scan_segment (ph i) acc) (λ j lt. nz j (omega arith)) in
    record {
      grows = omega (arith, g, rest.grows);
      shrinks = λ f.
          let (some_one, less) = sh f in
          let (some_rest, less') = rest.shrinks some_one in (some_rest, omega (arith, less, less'));
      reaches = λ j ge lt load. elim (ℕ_discrete j i) [
        | yes e ↦
            let here = r (subst (λ x. (ph x).type ≡ 1) e load) in
            let (some_rest, less) = rest.shrinks here.some_first in
            let at : Wraps (scan_segments ph (suc n) i acc).0 (scan_segments ph (suc n) i acc).1
                (ph i) =
              record {
                some_first = some_rest;
                starts = omega (arith, here.starts, less);
                ends = omega (arith, here.ends, rest.grows);
              } in
            subst
              (λ x.
                Wraps (scan_segments ph (suc n) i acc).0 (scan_segments ph (suc n) i acc).1 (ph x))
              (sym e) at
        | no ne ↦ rest.reaches j (omega arith) (omega arith) load
      ];
    }

parsed-range :
    (h : Ehdr) (ph : ℕ → Phdr) (range : ℕ × ℕ)
    → ((parsed h ph range).first_vaddr ≡ range.0) × ((parsed h ph range).last_vaddr ≡ range.1)
unfolding parsed
parsed-range h ph (first, last) = elim (Bool-cases (first == 0)) [
  | inl none_found ↦ rw none_found (refl, refl)
  | inr found ↦
      rw found
        (elim (Option-cases
          (first_from (λ i. (ph i).type == 1 && (ph i).vaddr == first) h.phnum 0)) [
            | inl none_found ↦ rw none_found (refl, refl)
            | inr (i, e) ↦ rw e (refl, refl)
          ])
]

accepted :
    (image : Array ℕ) (size : ℕ) (info : ElfInfo)
    → elf_parse_image (some image) size ≡ some info
    → let h = ehdr_of image in
      let ph = phdr_at image h.phoff in
      (header_ok size h ≡ true) × (info ≡ parsed h ph (scan_segments ph h.phnum 0 (0, 0)))
unfolding elf_parse_image
accepted image size info e = elim (Bool-cases (ltb size ehdr_size)) [
  | inl small ↦
      let refused : elf_parse_image (some image) size ≡ none = rw small refl in
      let bad : none ≡ some info = sym refused ∙ e in cc
  | inr large ↦ elim (Bool-cases (header_ok size (ehdr_of image))) [
    | inl ok ↦
        let h = ehdr_of image in
        let ph = phdr_at image h.phoff in
        let out : ElfInfo = parsed h ph (scan_segments ph h.phnum 0 (0, 0)) in
        let done : elf_parse_image (some image) size ≡ some out = rw (large, ok) refl in
        let same : some info ≡ some out = sym e ∙ done in (ok, cc)
    | inr wrong ↦
        let refused : elf_parse_image (some image) size ≡ none = rw (large, wrong) refl in
        let bad : none ≡ some info = sym refused ∙ e in cc
  ]
]

table_fits :
    (size : ℕ) (h : Ehdr)
    → h.phoff + h.phnum * phdr_size < 2 ^ 64
    → header_ok size h ≡ true
    → h.phoff + h.phnum * phdr_size ≤ size
table_fits size h fits ok = ground arith

-- An image that is accepted, whose table of program headers does not wrap round the address space
-- and has no loadable segment at address 0: the header of each loadable segment whose own end does
-- not wrap lies within the image, and the range from `first_vaddr` to `last_vaddr` reaches from its
-- start or before to its end or behind.
pub elf_range-Reaches :
    (image : Array ℕ) (size : ℕ) (info : ElfInfo) (j : ℕ)
    → let h = ehdr_of image in
      h.phoff + h.phnum * phdr_size < 2 ^ 64
      → ((i : ℕ)
          → i < h.phnum
          → (phdr_at image h.phoff i).type ≡ 1
          → (phdr_at image h.phoff i).vaddr ≢ 0)
      → elf_parse_image (some image) size ≡ some info
      → j < h.phnum
      → (phdr_at image h.phoff j).type ≡ 1
      → (phdr_at image h.phoff j).vaddr + (phdr_at image h.phoff j).memsz < 2 ^ 64
      → (h.phoff + (j + 1) * phdr_size ≤ size)
        × Reaches info.first_vaddr info.last_vaddr (phdr_at image h.phoff j)
elf_range-Reaches image size info j fits nz e lt load whole =
    let h = ehdr_of image in
    let ph = phdr_at image h.phoff in
    let (ok, same) = accepted image size info e in
    let range = scan_segments ph h.phnum 0 (0, 0) in
    let (first, last) = parsed-range h ph range in
    let found =
      (scan_segments-Scanned ph h.phnum 0 (0, 0) (λ i b. nz i (omega arith))).reaches j
        (omega arith) (omega arith) load in
    (
      omega (arith, table_fits size h fits ok),
      subst (λ x. Reaches x.first_vaddr x.last_vaddr (ph j)) (sym same)
          (record {
            some_first = λ z. found.some_first (sym first ∙ z);
            starts = omega (arith, first, found.starts);
            ends = omega (arith, last, found.ends, whole);
          }),
    )
