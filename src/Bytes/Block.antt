-- ===== src/Bytes/Block.antt =====
-- `memset` and `memcpy` on memory, and the copy of a given run of bytes into it.
use bumbel_bee.Base.{
  ℕ, ◌+◌, ◌-◌, ◌≤◌, ◌<◌, ◌≡◌, refl, ◌∙◌, ◌⊎◌, ◌&&◌, List, [], ◌∷◌, Array, ltb, leb, if◌then◌else◌,
  slice, write, write_ne, write_self, ap₂, length, arith,
}

-- memset(dst, value, n)
abbrev pub memset : Array ℕ → ℕ → ℕ → ℕ → Array ℕ
memset m dst value n x = if leb dst x && ltb x (dst + n) then value else m x

-- memcpy(dst, src, n), both in memory and apart
abbrev pub memcpy : Array ℕ → ℕ → ℕ → ℕ → Array ℕ
memcpy m dst src n x = if leb dst x && ltb x (dst + n) then m (src + (x - dst)) else m x

-- memcpy(dst, data, length data), from outside the memory
unfoldable pub store_bytes : Array ℕ → ℕ → List ℕ → Array ℕ
store_bytes m a [] = m
store_bytes m a (b ∷ bs) = store_bytes (write m a b) (a + 1) bs

pub store_bytes_outside :
    (bs : List ℕ) (m : Array ℕ) (a x : ℕ)
    → (x < a) ⊎ (a + length bs ≤ x)
    → store_bytes m a bs x ≡ m x
unfolding store_bytes
store_bytes_outside [] m a x h = refl
store_bytes_outside (b ∷ bs) m a x h =
    store_bytes_outside bs (write m a b) (a + 1) x (omega arith) ∙ write_ne m a x b (omega arith)

-- What was copied in is there.
slice-store_bytes :
    (bs : List ℕ) (m : Array ℕ) (a : ℕ) → slice (store_bytes m a bs) a (length bs) ≡ bs
unfolding store_bytes
slice-store_bytes [] m a = refl
slice-store_bytes (b ∷ bs) m a =
    ap₂ ◌∷◌ (store_bytes_outside bs (write m a b) (a + 1) a (omega arith) ∙ write_self m a b)
      (slice-store_bytes bs (write m a b) (a + 1))
