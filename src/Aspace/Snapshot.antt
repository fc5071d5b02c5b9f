-- ===== src/Aspace/Snapshot.antt =====
-- kernel/aspace.c: the list of address spaces that other parts read.
use bumbel_bee.Base.{ℕ, List, collect}
use bumbel_bee.Data.{AspaceInfo, AspaceState}
use bumbel_bee.Aspace.{aspace_max}

unfoldable pub aspace_snapshot : ℕ → AspaceState → List AspaceInfo
aspace_snapshot max_entries a =
    collect (λ slot. slot.used) (λ slot. slot.info) aspace_max 0 max_entries a.table
