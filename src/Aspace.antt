-- ===== src/Aspace.antt =====
-- kernel/aspace.c: the table of address spaces with their reference counts, the page tables of a
-- new one. Memory is mapped one to one, so an address in a pointer is the
-- address of the byte. A function returns 0 or -1 as `true` or `false` beside the new state.
pub mod Refs
pub mod Snapshot
pub mod Window
use bumbel_bee.Base.{
  ℕ, zero, suc, ◌+◌, ◌-◌, ◌*◌, ◌/◌, ◌%◌, ◌^◌, Bool, true, false, not, ◌&&◌, ◌||◌, Option, none,
  some, List, [], ◌∷◌, Array, write, first_from, ◌==◌, ltb, leb, if◌then◌else◌, u32, u64, length,
  take, drop, codes,
}
use Prim.Native.Nat.{min}
use bumbel_bee.Data.{MemoryState, Mm, AspaceInfo, AspaceSlot, AspaceState}
use bumbel_bee.Bytes.{load64, store64, load_le, store_le, memset, memcpy, store_bytes}
use bumbel_bee.Memory.{page_alloc, page_of}

abbrev pub aspace_max : ℕ
aspace_max = 16

-- ASPACE_KIND_KERNEL
abbrev pub kind_kernel : ℕ
kind_kernel = 1

abbrev pub user_base : ℕ
user_base = 0x40000000

abbrev pub user_window_size : ℕ
user_window_size = 0x00200000

abbrev pub empty_info : AspaceInfo
empty_info = record {
  id = 0;
  kind = 0;
  refcount = 0;
  isolated = 0;
  cr3 = 0;
  user_stack_top = 0;
  label = [];
}

-- a slot after `memset(slot, 0, sizeof(*slot))`
abbrev pub empty_slot : AspaceSlot
empty_slot = record { used = false; info = empty_info; user_pt = 0 }

-- `copy_label` into 24 bytes: what fits before the terminator
unfoldable pub copy_label : List ℕ → List ℕ
copy_label src = if leb 24 (length src) then take 23 src else src

abbrev pub set_slot : ℕ → AspaceSlot → Mm → Mm
set_slot i slot mm = record mm {
  aspace = record (mm.aspace) { table = write mm.aspace.table i slot };
}

-- The index of the slot, in place of its address.
unfoldable pub find_slot : ℕ → Array AspaceSlot → Option ℕ
find_slot id table = first_from (λ i. (table i).used && (table i).info.id == id) aspace_max 0

-- page_alloc as a call on the whole of memory management
unfoldable pub alloc_page : Mm → ℕ × Mm
unfolding page_alloc
alloc_page mm = let (page, memory) = page_alloc mm.memory in (page, record mm { memory = memory })

-- The entry of a table that maps the user window: (ASPACE_USER_BASE >> 30) & 0x1ff, and then
-- (ASPACE_USER_BASE >> 21) & 0x1ff.
abbrev window_pdpt_index : ℕ
window_pdpt_index = user_base / 2 ^ 30 % 512

abbrev window_pd_index : ℕ
window_pd_index = user_base / 2 ^ 21 % 512

-- page | 0x007: the three low bits, present, writable and user, are set.
abbrev pub entry_of : ℕ → ℕ
entry_of page = page / 8 * 8 + 7

-- The page tables that `clone_kernel_root` writes into four fresh pages.
unfoldable pub build_tables : ℕ → ℕ → ℕ → ℕ → ℕ → Array ℕ → Array ℕ
build_tables src_pml4 pml4 pdpt pd pt bytes =
    let cleared_root = memset bytes pml4 0 4096 in
    let copied = memcpy cleared_root pdpt (page_of (load64 cleared_root src_pml4)) 4096 in
    let cleared = memset (memset copied pd 0 4096) pt 0 4096 in
    let with_pt = store64 cleared pd (entry_of pt) in
    let with_pd = store64 with_pt (pdpt + window_pdpt_index * 8) (entry_of pd) in
    store64 with_pd pml4 (entry_of pdpt)

unfoldable pub clone_kernel_root : AspaceInfo → Mm → Option AspaceInfo × Mm
unfolding alloc_page
clone_kernel_root info mm =
    let src_pml4 = mm.aspace.kernel_cr3 in
    let (pml4, mm1) = alloc_page mm in
    let (pdpt, mm2) = alloc_page mm1 in
    let (pd, mm3) = alloc_page mm2 in
    let (pt, mm4) = alloc_page mm3 in
    if src_pml4 == 0 || pml4 == 0 || pdpt == 0 || pd == 0 || pt == 0 then (none, mm4) else (
      some
          (record info { isolated = 1; cr3 = pml4; user_stack_top = user_base + user_window_size }),
      record mm4 { bytes = build_tables src_pml4 pml4 pdpt pd pt mm4.bytes },
    )

-- The walk that `aspace_create` makes from the root to the table of the window.
unfoldable pub walk_user_pt : ℕ → Array ℕ → ℕ
walk_user_pt cr3 bytes =
    let pdpt = page_of (load64 bytes cr3) in
    let pd = page_of (load64 bytes (pdpt + window_pdpt_index * 8)) in
    page_of (load64 bytes (pd + window_pd_index * 8))

unfoldable pub new_info : ℕ → List ℕ → AspaceState → AspaceInfo
unfolding copy_label
new_info kind label a = record empty_info {
  id = a.next_aspace_id;
  kind = kind;
  refcount = 1;
  cr3 = a.kernel_cr3;
  label = copy_label label;
}

-- `aspace_create` at the free slot `i`. The id counter has moved on also where the clone fails.
unfoldable pub create_at : ℕ → ℕ → List ℕ → Mm → ℕ × Mm
create_at i kind label mm =
    let info = new_info kind label mm.aspace in
    let mm' = record mm {
      aspace = record (mm.aspace) { next_aspace_id = u32 (mm.aspace.next_aspace_id + 1) };
    } in
    if kind == kind_kernel
    then (info.id, set_slot i (record { used = true; info = info; user_pt = 0 }) mm')
    else (let (cloned, mm'') = clone_kernel_root info mm' in
        elim cloned [
          | none ↦ (0, set_slot i empty_slot mm'')
          | some info' ↦ (
            info'.id,
            set_slot i
                (record { used = true; info = info'; user_pt = walk_user_pt info'.cr3 mm''.bytes })
                mm'',
          )
        ])

unfoldable pub find_free : Array AspaceSlot → Option ℕ
find_free table = first_from (λ i. not ((table i).used)) aspace_max 0

unfoldable pub aspace_create : ℕ → List ℕ → Mm → ℕ × Mm
aspace_create kind label mm = elim (find_free mm.aspace.table) [
  | none ↦ (0, mm)
  | some i ↦ create_at i kind label mm
]

unfoldable pub aspace_retain : ℕ → Mm → Bool × Mm
aspace_retain id mm = elim (find_slot id mm.aspace.table) [
  | none ↦ (false, mm)
  | some i ↦
      let slot = mm.aspace.table i in
      let info = record (slot.info) { refcount = u32 (slot.info.refcount + 1) } in
      (true, set_slot i (record slot { info = info }) mm)
]

-- What `aspace_release` leaves in the slot.
unfoldable pub released : ℕ → ℕ → AspaceSlot → AspaceSlot
released kernel_id id slot =
    let refcount =
      if ltb 0 slot.info.refcount then slot.info.refcount - 1 else slot.info.refcount in
    if refcount == 0 && not (id == kernel_id)
    then empty_slot
    else record slot { info = record (slot.info) { refcount = refcount } }

unfoldable pub aspace_release : ℕ → Mm → Bool × Mm
aspace_release id mm = elim (find_slot id mm.aspace.table) [
  | none ↦ (false, mm)
  | some i ↦ (true, set_slot i (released mm.aspace.kernel_aspace_id id (mm.aspace.table i)) mm)
]

unfoldable pub aspace_fork_clone : ℕ → Mm → ℕ × Mm
aspace_fork_clone parent_id mm = elim (find_slot parent_id mm.aspace.table) [
  | none ↦ (0, mm)
  | some i ↦
      let info = (mm.aspace.table i).info in
      if info.kind == kind_kernel
      then (let (done, mm') = aspace_retain parent_id mm in (if done then parent_id else 0, mm'))
      else aspace_create info.kind info.label mm
]

unfoldable pub aspace_get : ℕ → Mm → Option AspaceInfo
aspace_get id mm = elim (find_slot id mm.aspace.table) [
  | none ↦ none
  | some i ↦ some (mm.aspace.table i).info
]

-- cr3 is written only where it differs, which leaves it the same in either case.
unfoldable pub aspace_switch : ℕ → Mm → Bool × Mm
aspace_switch id mm = elim (find_slot id mm.aspace.table) [
  | none ↦ (false, mm)
  | some i ↦
      let cr3 = (mm.aspace.table i).info.cr3 in
      (true, if mm.cr3 == cr3 then mm else record mm { cr3 = cr3 })
]

unfoldable pub aspace_init : Mm → Mm
unfolding aspace_create
aspace_init mm =
    let cleared = record mm {
      aspace = record (mm.aspace) {
        table = λ i. empty_slot;
        next_aspace_id = 1;
        kernel_cr3 = mm.cr3;
      };
    } in
    let (id, mm') = aspace_create kind_kernel (codes "kernel") cleared in
    record mm' { aspace = record (mm'.aspace) { kernel_aspace_id = id } }
