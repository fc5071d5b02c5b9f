-- ===== src/Memory/Region.antt =====
-- Which region of the BIOS map `memory_init` gives to the page allocator.
use Prim.Native.Nat.{max}
use bumbel_bee.Base.{◌+◌, ◌-◌, ◌^◌, ◌≤◌, ◌<◌, ◌≡◌, refl, ◌⊎◌, ◌∙◌, inl, inr, List, [], ◌∷◌, arith}
use bumbel_bee.Data.{MemoryState}
use bumbel_bee.Memory.{E820Entry, scan_entry, scan_entries, clear_regions, memory_init}
use bumbel_bee.Memory.Alloc.{IsReady}

-- The entry's end is an address.
abbrev Fits : E820Entry → Type 0
Fits e = e.base + e.length < 2 ^ 64

-- Memory that the BIOS offers above the first megabyte.
abbrev pub Offered : E820Entry → Type 0
Offered e = (e.type ≡ 1) × (0x100000 ≤ e.base)

abbrev pub All : (E820Entry → Type 0) → List E820Entry → Type 0
All P [] = Unit {0}
All P (e ∷ es) = P e × All P es

abbrev pub Any : (E820Entry → Type 0) → List E820Entry → Type 0
Any P [] = ⊥
Any P (e ∷ es) = P e ⊎ Any P es

-- The region held is `e`.
abbrev Holds : MemoryState → E820Entry → Type 0
Holds m e = Offered e × (m.alloc_base ≡ e.base) × (m.alloc_limit ≡ e.base + e.length)

-- The region held is at least as long as `e`, if `e` is offered.
abbrev Covers : MemoryState → E820Entry → Type 0
Covers m e = Offered e → m.alloc_base + e.length ≤ m.alloc_limit

abbrev Ordered : MemoryState → Type 0
Ordered m = (m.alloc_base ≤ m.alloc_limit) × (m.alloc_limit < 2 ^ 64)

scan_entry-Ordered :
    (m : MemoryState) (e : E820Entry) → Ordered m → Fits e → Ordered (scan_entry m e)
unfolding scan_entry
scan_entry-Ordered m e o f = ground arith

scan_entry-grows :
    (m : MemoryState) (e : E820Entry)
    → Ordered m
    → Fits e
    → m.alloc_limit - m.alloc_base ≤ (scan_entry m e).alloc_limit - (scan_entry m e).alloc_base
unfolding scan_entry
scan_entry-grows m e o f = ground arith

scan_entry-Covers :
    (m : MemoryState) (e : E820Entry) → Ordered m → Fits e → Covers (scan_entry m e) e
unfolding scan_entry
scan_entry-Covers m e o f h = ground arith

-- Either the entry is taken, or the region held stays.
scan_entry_takes :
    (m : MemoryState) (e : E820Entry)
    → Ordered m
    → Fits e
    → Holds (scan_entry m e) e
      ⊎ (((scan_entry m e).alloc_base ≡ m.alloc_base)
          × ((scan_entry m e).alloc_limit ≡ m.alloc_limit))
unfolding scan_entry
scan_entry_takes m e o f = ground arith

record Scanned (m m' : MemoryState) (es : List E820Entry) : Type 0 where
  ordered : Ordered m'
  grows : m.alloc_limit - m.alloc_base ≤ m'.alloc_limit - m'.alloc_base
  covers : All (Covers m') es
  takes : Any (Holds m') es ⊎ ((m'.alloc_base ≡ m.alloc_base) × (m'.alloc_limit ≡ m.alloc_limit))

Covers-grown :
    (m m' : MemoryState) (e : E820Entry)
    → Ordered m
    → Ordered m'
    → m.alloc_limit - m.alloc_base ≤ m'.alloc_limit - m'.alloc_base
    → Covers m e
    → Covers m' e
Covers-grown m m' e o o' g c h = omega (arith, c h)

Holds-same :
    (m m' : MemoryState) (e : E820Entry)
    → (m'.alloc_base ≡ m.alloc_base) × (m'.alloc_limit ≡ m.alloc_limit)
    → Holds m e
    → Holds m' e
Holds-same m m' e s h = (h.0, s.0 ∙ h.1, s.1 ∙ h.2)

scan_entries-Scanned :
    (es : List E820Entry) (m : MemoryState)
    → Ordered m
    → All Fits es
    → Scanned m (scan_entries m es) es
unfolding scan_entries
scan_entries-Scanned [] m o f = record {
  ordered = o;
  grows = omega arith;
  covers = tt;
  takes = inr (refl, refl);
}
scan_entries-Scanned (e ∷ es) m o f =
    let m1 = scan_entry m e in
    let o1 = scan_entry-Ordered m e o f.0 in
    let rest = scan_entries-Scanned es m1 o1 f.1 in
    record {
      ordered = rest.ordered;
      grows = omega (arith, scan_entry-grows m e o f.0, rest.grows);
      covers = (
        Covers-grown m1 (scan_entries m1 es) e o1 rest.ordered rest.grows
            (scan_entry-Covers m e o f.0),
        rest.covers,
      );
      takes = pick m1 (scan_entries m1 es) rest.takes (scan_entry_takes m e o f.0);
    }
  where
    pick :
        (m1 m' : MemoryState)
        → Any (Holds m') es ⊎ ((m'.alloc_base ≡ m1.alloc_base) × (m'.alloc_limit ≡ m1.alloc_limit))
        → Holds m1 e ⊎ ((m1.alloc_base ≡ m.alloc_base) × (m1.alloc_limit ≡ m.alloc_limit))
        → Any (Holds m') (e ∷ es)
          ⊎ ((m'.alloc_base ≡ m.alloc_base) × (m'.alloc_limit ≡ m.alloc_limit))
    pick m1 m' (inl any) _ = inl (inr any)
    pick m1 m' (inr same) (inl holds) = inl (inl (Holds-same m1 m' e same holds))
    pick m1 m' (inr same) (inr kept) = inr (same.0 ∙ kept.0, same.1 ∙ kept.1)

-- `e` is the region in use: its part above two megabytes.
abbrev pub Selects : MemoryState → E820Entry → Type 0
Selects m e = Offered e × (m.alloc_base ≡ max 0x200000 e.base) × (m.alloc_limit ≡ e.base + e.length)

abbrev pub LongestOf : List E820Entry → E820Entry → Type 0
LongestOf es e = All (λ other. Offered other → other.length ≤ e.length) es

All-map :
    {P Q : E820Entry → Type 0} (es : List E820Entry)
    → ((e : E820Entry) → P e → Q e)
    → All P es
    → All Q es
All-map [] f a = tt
All-map (e ∷ es) f a = (f e a.0, All-map es f a.1)

-- An entry found in a list has what all its entries have.
Any-map :
    {P Q R : E820Entry → Type 0} (es : List E820Entry)
    → ((e : E820Entry) → P e → Q e → R e)
    → All P es
    → Any Q es
    → Any R es
Any-map [] f a q = q
Any-map (e ∷ es) f a (inl q) = inl (f e a.0 q)
Any-map (e ∷ es) f a (inr q) = inr (Any-map es f a.1 q)

Any-elim :
    {P : E820Entry → Type 0} {R : Type 0} (es : List E820Entry)
    → ((e : E820Entry) → P e → R)
    → Any P es
    → R
Any-elim [] f a = absurd a
Any-elim (e ∷ es) f (inl p) = f e p
Any-elim (e ∷ es) f (inr a) = Any-elim es f a

-- The map leaves room above each entry for the rounding of the allocator.
abbrev pub Roomy : E820Entry → Type 0
Roomy e = e.base + e.length + 8192 < 2 ^ 64

module _ (entries : List E820Entry) (m : MemoryState) (roomy : All Roomy entries) where
  abbrev start : MemoryState
  start = clear_regions entries m

  abbrev final : MemoryState
  final = scan_entries start entries

  scanned : Scanned start final entries
  unfolding clear_regions
  scanned =
      scan_entries-Scanned entries start (omega arith) (All-map entries (λ e r. omega arith) roomy)

  limit_bound : final.alloc_limit + 8192 < 2 ^ 64
  unfolding clear_regions
  limit_bound = elim scanned.takes [
    | inl any ↦
        Any-elim {P = λ e. Holds final e × Roomy e} entries (λ e h. omega arith)
          (Any-map entries (λ e r h. (h, r)) roomy any)
    | inr same ↦ omega arith
  ]

  init-IsReady : IsReady (memory_init entries m)
  unfolding memory_init
  init-IsReady = ground (arith, scanned.ordered, limit_bound)

  init-Selects :
      Any (λ e. Selects (memory_init entries m) e × LongestOf entries e) entries
      ⊎ (All (λ e. Offered e → e.length ≡ 0) entries × ((memory_init entries m).alloc_limit ≡ 0))
  unfolding memory_init clear_regions
  init-Selects = elim scanned.takes [
    | inl any ↦ inl (
        Any-map entries
          (λ e c h. (
            (h.0, ground arith, ground arith),
            All-map entries (λ o d q. omega (arith, d q)) scanned.covers,
          ))
          scanned.covers any)
    | inr same ↦ inr (All-map entries (λ e c q. omega (arith, c q)) scanned.covers, ground arith)
  ]

-- `memory_init` on a map whose entries end 8192 bytes or more below 2^64: the allocator is ready
-- afterwards, and either it holds the longest of the entries of type 1 from the first megabyte on,
-- less what lies below two megabytes, or all of these are empty and its limit is 0.
pub memory_init_lem :
    (entries : List E820Entry) (m : MemoryState)
    → All Roomy entries
    → let m' = memory_init entries m in
      IsReady m'
      × (Any (λ e. Selects m' e × LongestOf entries e) entries
          ⊎ (All (λ e. Offered e → e.length ≡ 0) entries × (m'.alloc_limit ≡ 0)))
memory_init_lem entries m roomy = (init-IsReady entries m roomy, init-Selects entries m roomy)
