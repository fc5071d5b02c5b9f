-- ===== src/Aspace/Refs.antt =====
-- The reference counts of the address-space table.
use bumbel_bee.Base.{
  ℕ, ◌+◌, ◌^◌, ◌<◌, ◌≡◌, refl, ap, ◌∙◌, ◌⊎◌, Bool, true, ◌&&◌, Array, fun_ext, some, ◌==◌, write,
  write_self, first_from, arith, u32,
}
use bumbel_bee.Data.{Mm, AspaceSlot}
use bumbel_bee.Aspace.{
  aspace_max, find_slot, set_slot, aspace_retain, aspace_release, released, kind_kernel,
  aspace_fork_clone,
}

-- The search for an id reads no more of a slot than whether it is used, and its id.
pub find_slot-write :
    (id i : ℕ) (table : Array AspaceSlot) (slot : AspaceSlot)
    → slot.used ≡ (table i).used
    → slot.info.id ≡ (table i).info.id
    → find_slot id (write table i slot) ≡ find_slot id table
unfolding find_slot
find_slot-write id i table slot u e =
    ap (λ test. first_from test aspace_max 0)
      (fun_ext {f = λ j. (write table i slot j).used && (write table i slot j).info.id == id}
        {g = λ j. (table j).used && (table j).info.id == id} (λ j. ground arith))

abbrev pub retained : AspaceSlot → AspaceSlot
retained slot = record slot {
  info = record (slot.info) { refcount = u32 (slot.info.refcount + 1) };
}

pub aspace_retain-found :
    (id i : ℕ) (mm : Mm)
    → find_slot id mm.aspace.table ≡ some i
    → aspace_retain id mm ≡ (true, set_slot i (retained (mm.aspace.table i)) mm)
unfolding aspace_retain
aspace_retain-found id i mm e = ground arith

aspace_release-found :
    (id i : ℕ) (mm : Mm)
    → find_slot id mm.aspace.table ≡ some i
    → aspace_release id mm
      ≡ (true, set_slot i (released mm.aspace.kernel_aspace_id id (mm.aspace.table i)) mm)
unfolding aspace_release
aspace_release-found id i mm e = ground arith

released-retained :
    (kernel_id id : ℕ) (slot : AspaceSlot)
    → slot.info.refcount + 1 < 2 ^ 32
    → (0 < slot.info.refcount) ⊎ (id ≡ kernel_id)
    → released kernel_id id (retained slot) ≡ slot
unfolding released
released-retained kernel_id id slot b h = ground arith

write-write :
    (table : Array AspaceSlot) (i : ℕ) (slot : AspaceSlot)
    → write (write table i slot) i (table i) ≡ table
write-write table i slot = fun_ext (λ j. ground arith)

-- A reference to an address space that is found, taken and given back, leaves memory management as
-- it was, if the count does not wrap and the slot is in use by another reference or is the
-- kernel's.
pub release-retain :
    (id i : ℕ) (mm : Mm)
    → find_slot id mm.aspace.table ≡ some i
    → (mm.aspace.table i).info.refcount + 1 < 2 ^ 32
    → (0 < (mm.aspace.table i).info.refcount) ⊎ (id ≡ mm.aspace.kernel_aspace_id)
    → aspace_release id (aspace_retain id mm).1 ≡ (true, mm)
release-retain id i mm e b h = rw (aspace_retain-found id i mm e) (
    aspace_release-found id i after
      (find_slot-write id i mm.aspace.table (retained slot) refl refl ∙ e)
    ∙ ap (λ s. result (write (write mm.aspace.table i (retained slot)) i s)) restored
    ∙ ap result (write-write mm.aspace.table i (retained slot)))
  where
    slot : AspaceSlot
    slot = mm.aspace.table i

    after : Mm
    after = set_slot i (retained slot) mm

    result : Array AspaceSlot → Bool × Mm
    result t = (true, record mm { aspace = record (mm.aspace) { table = t } })

    restored : released mm.aspace.kernel_aspace_id id (after.aspace.table i) ≡ slot
    restored =
        ap (released mm.aspace.kernel_aspace_id id) (write_self mm.aspace.table i (retained slot))
        ∙ released-retained mm.aspace.kernel_aspace_id id slot b h

-- A child of a kernel task shares its address space, by one more reference.
pub fork_clone-kernel :
    (id i : ℕ) (mm : Mm)
    → find_slot id mm.aspace.table ≡ some i
    → (mm.aspace.table i).info.kind ≡ kind_kernel
    → aspace_fork_clone id mm ≡ (id, (aspace_retain id mm).1)
unfolding aspace_fork_clone
fork_clone-kernel id i mm e kind = ground (arith, aspace_retain-found id i mm e)
