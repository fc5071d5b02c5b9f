-- ===== src/Memory/Alloc.antt =====
-- The page allocator gives out each page of its region once.
use bumbel_bee.Base.{◌+◌, ◌%◌, ◌^◌, ◌≤◌, ◌<◌, ◌≡◌, ◌≢◌, arith}
use bumbel_bee.Data.{MemoryState}
use bumbel_bee.Memory.{page_alloc, memory_free_bytes}

-- What holds of the allocator after `memory_init`, and between any two allocations.
pub record IsReady (m : MemoryState) : Type 0 where
  pub aligned : m.alloc_next % 4096 ≡ 0
  pub above : 0x200000 ≤ m.alloc_next
  pub in_word : m.alloc_next + 4096 < 2 ^ 64
  pub limit : m.alloc_limit + 4096 < 2 ^ 64

page_alloc-IsReady : (m : MemoryState) → IsReady m → IsReady (page_alloc m).1
unfolding page_alloc
page_alloc-IsReady m r = ground arith

-- From an allocator that is ready, a page that is given out is the next address, is aligned, ends
-- within the region, and is taken off the free bytes. Where none is given out, the state stays,
-- and less than a page is free.
pub page_alloc_lem :
    (m : MemoryState)
    → IsReady m
    → let (page, m') = page_alloc m in
      (page ≢ 0
        → (page ≡ m.alloc_next)
          × (page % 4096 ≡ 0)
          × (page + 4096 ≤ m.alloc_limit)
          × (m'.alloc_next ≡ page + 4096)
          × (memory_free_bytes m' + 4096 ≡ memory_free_bytes m))
      × (page ≡ 0 → (m' ≡ m) × (memory_free_bytes m < 4096))
unfolding page_alloc memory_free_bytes
page_alloc_lem m r = ground arith
