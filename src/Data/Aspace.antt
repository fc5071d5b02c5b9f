-- ===== src/Data/Aspace.antt =====
-- The address-space table of kernel/aspace.c, the page allocator's variables of kernel/memory.c,
-- and what both act on: the bytes of physical memory and the register cr3.
use Prim.Native.Nat.{ℕ}
use mathlib.Core.Bool.{Bool}
use mathlib.Core.List.{List}
use bumbel_bee.Base.{Array}

pub record MemoryState : Type 0 where
  pub total_bytes : ℕ
  pub used_bytes : ℕ
  pub page_faults : ℕ
  pub region_count : ℕ
  pub alloc_base : ℕ
  pub alloc_next : ℕ
  pub alloc_limit : ℕ

-- struct aspace_info
pub record AspaceInfo : Type 0 where
  pub id : ℕ
  pub kind : ℕ
  pub refcount : ℕ
  pub isolated : ℕ
  pub cr3 : ℕ
  pub user_stack_top : ℕ
  pub label : List ℕ

-- struct aspace_slot; the null pointer is 0
pub record AspaceSlot : Type 0 where
  pub used : Bool
  pub info : AspaceInfo
  pub user_pt : ℕ

pub record AspaceState : Type 0 where
  pub table : Array AspaceSlot
  pub next_aspace_id : ℕ
  pub kernel_aspace_id : ℕ
  pub kernel_cr3 : ℕ

-- Memory management as a whole: both modules' variables, the bytes of memory, and cr3.
pub record Mm : Type 0 where
  pub memory : MemoryState
  pub aspace : AspaceState
  pub bytes : Array ℕ
  pub cr3 : ℕ
