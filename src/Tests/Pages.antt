-- ===== src/Tests/Pages.antt =====
-- The theorems on memory and address spaces, applied to one small memory map.
use bumbel_bee.Base.{
  ◌+◌, ◌%◌, ◌≤◌, ◌<◌, ◌≡◌, ◌≢◌, refl, ◌⊎◌, some, List, [], ◌∷◌, first_from, arith,
}
use bumbel_bee.Data.{MemoryState}
use bumbel_bee.Memory.{E820Entry, page_alloc, memory_free_bytes, memory_init}
use bumbel_bee.Memory.Alloc.{IsReady, page_alloc_lem}
use bumbel_bee.Memory.Region.{All, Any, Roomy, Offered, Selects, LongestOf, memory_init_lem}
use bumbel_bee.Aspace.{find_slot}
use bumbel_bee.Tests.Sample.{memory_management}

abbrev free_memory : MemoryState
free_memory = memory_management.memory

free_memory-IsReady : IsReady free_memory
free_memory-IsReady = record {
  aligned = refl;
  above = omega arith;
  in_word = omega arith;
  limit = omega arith;
}

page_alloc_lem_example :
    let (page, m') = page_alloc free_memory in
    (page ≢ 0
      → (page ≡ free_memory.alloc_next)
        × (page % 4096 ≡ 0)
        × (page + 4096 ≤ free_memory.alloc_limit)
        × (m'.alloc_next ≡ page + 4096)
        × (memory_free_bytes m' + 4096 ≡ memory_free_bytes free_memory))
    × (page ≡ 0 → (m' ≡ free_memory) × (memory_free_bytes free_memory < 4096))
page_alloc_lem_example = page_alloc_lem free_memory free_memory-IsReady

-- low memory, the hole below the first megabyte, and 127 megabytes above it
abbrev bios_map : List E820Entry
bios_map =
    record { base = 0; length = 0x9fc00; type = 1 }
    ∷ record { base = 0xf0000; length = 0x10000; type = 2 }
    ∷ record { base = 0x100000; length = 0x7f00000; type = 1 }
    ∷ []

bios_map-Roomy : All Roomy bios_map
bios_map-Roomy = (omega arith, (omega arith, (omega arith, tt)))

memory_init_lem_example :
    let m' = memory_init bios_map free_memory in
    IsReady m'
    × (Any (λ e. Selects m' e × LongestOf bios_map e) bios_map
        ⊎ (All (λ e. Offered e → e.length ≡ 0) bios_map × (m'.alloc_limit ≡ 0)))
memory_init_lem_example = memory_init_lem bios_map free_memory bios_map-Roomy

kernel-found : find_slot 1 memory_management.aspace.table ≡ some 0
unfolding find_slot first_from
kernel-found = refl
