-- ===== src/Memory.antt =====
-- kernel/memory.c: the choice of a region from the BIOS memory map, and the page allocator over it.
-- `kernel/memory.c` reads the map through a pointer into low memory; here it is the list of its
-- entries, whose count is `e820_entries`.
pub mod Alloc
pub mod Region
use bumbel_bee.Base.{
  ℕ, ◌+◌, ◌-◌, ◌*◌, ◌/◌, ◌%◌, Bool, ◌&&◌, List, [], ◌∷◌, ◌==◌, ltb, leb, if◌then◌else◌, u64, sub64,
  length,
}
use bumbel_bee.Data.{MemoryState, Mm}

-- struct e820_entry
pub record E820Entry : Type 0 where
  pub base : ℕ
  pub length : ℕ
  pub type : ℕ

-- `x & ~0xfff` on an address
abbrev pub page_of : ℕ → ℕ
page_of x = x / 4096 * 4096

-- one round of the loop in `memory_init`
pub scan_entry : MemoryState → E820Entry → MemoryState
scan_entry m e =
    if e.type == 1
    then (let m' = record m { total_bytes = u64 (m.total_bytes + e.length) } in
        if leb 0x100000 e.base && ltb (sub64 m.alloc_limit m.alloc_base) e.length
        then record m' { alloc_base = e.base; alloc_limit = u64 (e.base + e.length) }
        else m')
    else m

pub scan_entries : MemoryState → List E820Entry → MemoryState
scan_entries m [] = m
scan_entries m (e ∷ es) = scan_entries (scan_entry m e) es

pub clear_regions : List E820Entry → MemoryState → MemoryState
clear_regions entries m = record m {
  total_bytes = 0;
  region_count = length entries;
  alloc_base = 0;
  alloc_next = 0;
  alloc_limit = 0;
}

unfoldable pub memory_init : List E820Entry → MemoryState → MemoryState
unfolding clear_regions scan_entries scan_entry
memory_init entries m =
    let scanned = scan_entries (clear_regions entries m) entries in
    let base = if ltb scanned.alloc_base 0x200000 then 0x200000 else scanned.alloc_base in
    record scanned { alloc_base = base; alloc_next = page_of (u64 (base + 0xfff)); used_bytes = 0 }

-- The address of the page, or 0 for the null pointer.
unfoldable pub page_alloc : MemoryState → ℕ × MemoryState
page_alloc m = if ltb m.alloc_limit (u64 (m.alloc_next + 4096)) then (0, m) else (
  m.alloc_next,
  record m { alloc_next = u64 (m.alloc_next + 4096); used_bytes = u64 (m.used_bytes + 4096) },
)

unfoldable pub memory_record_page_fault : MemoryState → MemoryState
memory_record_page_fault m = record m { page_faults = u64 (m.page_faults + 1) }

unfoldable pub memory_free_bytes : MemoryState → ℕ
memory_free_bytes m = if leb m.alloc_limit m.alloc_next then 0 else sub64 m.alloc_limit m.alloc_next
