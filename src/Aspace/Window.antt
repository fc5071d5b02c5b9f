-- ===== src/Aspace/Window.antt =====
-- kernel/aspace.c: pages for the user window of an address space, and writes to it through the page
-- table.
use bumbel_bee.Base.{
  ℕ, zero, suc, ◌+◌, ◌-◌, ◌*◌, ◌/◌, ◌%◌, Bool, true, false, ◌||◌, none, some, List, ◌==◌, ltb, leb,
  if◌then◌else◌, u64, length, take, drop,
}
use Prim.Native.Nat.{min}
use bumbel_bee.Data.{Mm}
use bumbel_bee.Bytes.{load64, store64, memset, store_bytes}
use bumbel_bee.Memory.{page_of}
use bumbel_bee.Aspace.{user_base, user_window_size, alloc_page, entry_of, find_slot}

-- The entry of the window's page table for an address.
abbrev pub pt_index : ℕ → ℕ
pt_index vaddr = page_of vaddr / 4096 % 512

unfoldable pub ensure_user_page : ℕ → ℕ → Mm → Bool × Mm
unfolding alloc_page
ensure_user_page user_pt vaddr mm =
    let page = page_of vaddr in
    let entry = user_pt + pt_index page * 8 in
    let (phys, mm') = alloc_page mm in
    if user_pt == 0
    then (false, mm)
    else (if ltb page user_base || leb (user_base + user_window_size) page
        then (false, mm)
        else (if load64 mm.bytes entry % 2 == 1
            then (true, mm)
            else (if phys == 0 then (false, mm') else (
              true,
              record mm' { bytes = store64 (memset mm'.bytes phys 0 4096) entry (entry_of phys) },
            ))))

-- The loop of `aspace_write`, over the bytes still to write. A round takes at least one byte, so as
-- many rounds as there are bytes are enough fuel.
write_loop : ℕ → ℕ → ℕ → List ℕ → Mm → Bool × Mm
unfolding ensure_user_page
write_loop zero user_pt vaddr data_left mm = (true, mm)
write_loop (suc fuel) user_pt vaddr data_left mm =
    let off = vaddr % 4096 in
    let chunk = min (4096 - off) (length data_left) in
    let (done, mm') = ensure_user_page user_pt (page_of vaddr) mm in
    let dst = page_of (load64 mm'.bytes (user_pt + pt_index vaddr * 8)) + off in
    let mm'' = record mm' { bytes = store_bytes mm'.bytes dst (take chunk data_left) } in
    let rest = write_loop fuel user_pt (u64 (vaddr + chunk)) (drop chunk data_left) mm'' in
    if length data_left == 0 then (true, mm) else (if done then rest else (false, mm'))

unfoldable pub aspace_write : ℕ → ℕ → List ℕ → Mm → Bool × Mm
unfolding find_slot write_loop
aspace_write id vaddr data_in mm = elim (find_slot id mm.aspace.table) [
  | none ↦ (false, mm)
  | some i ↦ write_loop (length data_in) (mm.aspace.table i).user_pt vaddr data_in mm
]

-- The loop of `aspace_zero`, with the fuel of `write_loop`.
zero_loop : ℕ → ℕ → ℕ → ℕ → Mm → Bool × Mm
unfolding ensure_user_page
zero_loop zero user_pt vaddr bytes mm = (true, mm)
zero_loop (suc fuel) user_pt vaddr bytes mm =
    let off = vaddr % 4096 in
    let chunk = min (4096 - off) bytes in
    let (done, mm') = ensure_user_page user_pt (page_of vaddr) mm in
    let dst = page_of (load64 mm'.bytes (user_pt + pt_index vaddr * 8)) + off in
    let mm'' = record mm' { bytes = memset mm'.bytes dst 0 chunk } in
    let rest = zero_loop fuel user_pt (u64 (vaddr + chunk)) (bytes - chunk) mm'' in
    if bytes == 0 then (true, mm) else (if done then rest else (false, mm'))

unfoldable pub aspace_zero : ℕ → ℕ → ℕ → Mm → Bool × Mm
unfolding find_slot zero_loop
aspace_zero id vaddr bytes mm = elim (find_slot id mm.aspace.table) [
  | none ↦ (false, mm)
  | some i ↦ zero_loop bytes (mm.aspace.table i).user_pt vaddr bytes mm
]
