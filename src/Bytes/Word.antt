-- ===== src/Bytes/Word.antt =====
-- Little-endian numbers of `n` bytes in memory.
use native.Mathlib.Nat.{pow-suc}
use bumbel_bee.Base.{
  ℕ, zero, suc, ◌+◌, ◌*◌, ◌/◌, ◌%◌, ◌^◌, ◌≤◌, ◌<◌, ◌≡◌, refl, ◌⊎◌, ◌∙◌, Array, write, write_ne,
  write_self, arith,
}

unfoldable pub load_le : Array ℕ → ℕ → ℕ → ℕ
load_le m a zero = 0
load_le m a (suc n) = m a + 256 * load_le m (a + 1) n

unfoldable pub store_le : Array ℕ → ℕ → ℕ → ℕ → Array ℕ
store_le m a zero v = m
store_le m a (suc n) v = write (store_le m (a + 1) n (v / 256)) a (v % 256)

abbrev pub load64 : Array ℕ → ℕ → ℕ
load64 m a = load_le m a 8

abbrev pub store64 : Array ℕ → ℕ → ℕ → Array ℕ
store64 m a v = store_le m a 8 v

-- A load depends on the bytes that it reads alone.
pub load_le-agree :
    (n : ℕ) (m m' : Array ℕ) (a : ℕ)
    → ((x : ℕ) → a ≤ x → x < a + n → m x ≡ m' x)
    → load_le m a n ≡ load_le m' a n
unfolding load_le
load_le-agree zero m m' a h = refl
load_le-agree (suc n) m m' a h = omega (
  arith,
  h a (omega arith) (omega arith),
  load_le-agree n m m' (a + 1) (λ x p q. h x (omega arith) (omega arith)),
)

-- A store does not reach a byte outside its own.
pub store_le_outside :
    (n : ℕ) (m : Array ℕ) (a v x : ℕ) → (x < a) ⊎ (a + n ≤ x) → store_le m a n v x ≡ m x
unfolding store_le
store_le_outside zero m a v x h = refl
store_le_outside (suc n) m a v x h =
    write_ne (store_le m (a + 1) n (v / 256)) a x (v % 256) (omega arith)
    ∙ store_le_outside n m (a + 1) (v / 256) x (omega arith)

-- A number that is stored is read back.
pub load_le-store_le :
    (n : ℕ) (m : Array ℕ) (a v : ℕ) → v < 256 ^ n → load_le (store_le m a n v) a n ≡ v
unfolding load_le store_le
load_le-store_le zero m a v h = omega arith
load_le-store_le (suc n) m a v h =
    let inner = store_le m (a + 1) n (v / 256) in
    let p : 256 ^ suc n ≡ 256 ^ n * 256 = pow-suc 256 n in
    omega (
      arith,
      write_self inner a (v % 256),
      load_le-agree n (write inner a (v % 256)) inner (a + 1)
          (λ x q r. write_ne inner a x (v % 256) (omega arith)),
      load_le-store_le n m (a + 1) (v / 256) (omega arith),
    )

load_le-store_le_apart :
    (k n : ℕ) (m : Array ℕ) (a b v : ℕ)
    → (b + k ≤ a) ⊎ (a + n ≤ b)
    → load_le (store_le m a n v) b k ≡ load_le m b k
load_le-store_le_apart k n m a b v h =
    load_le-agree k (store_le m a n v) m b (λ x p q. store_le_outside n m a v x (omega arith))

load_le-lt : (n : ℕ) (m : Array ℕ) (a : ℕ) → ((x : ℕ) → m x < 256) → load_le m a n < 256 ^ n
unfolding load_le
load_le-lt zero m a h = omega arith
load_le-lt (suc n) m a h =
    let p : 256 ^ suc n ≡ 256 ^ n * 256 = pow-suc 256 n in
    omega (arith, h a, load_le-lt n m (a + 1) h)
