-- ===== src/Bytes/Packed.antt =====
-- Packed structures: fields of a width and a value each, one behind the other.
use bumbel_bee.Base.{ℕ, ◌+◌, ◌^◌, ◌<◌, ◌≤◌, ◌≡◌, refl, ◌∙◌, ap₂, ◌⊎◌, List, [], ◌∷◌, Array, arith}
use Prim.{Unit}
use bumbel_bee.Bytes.Word.{load_le, store_le, load_le-store_le, store_le_outside, load_le-agree}

-- Stores the fields (width, value) from the address `a` on.
unfoldable pub store_fields : List (ℕ × ℕ) → Array ℕ → ℕ → Array ℕ
store_fields [] m a = m
store_fields ((w, v) ∷ fs) m a = store_le (store_fields fs m (a + w)) a w v

-- The values of the fields with these widths.
unfoldable pub load_fields : List (ℕ × ℕ) → Array ℕ → ℕ → List ℕ
load_fields [] m a = []
load_fields ((w, v) ∷ fs) m a = load_le m a w ∷ load_fields fs m (a + w)

abbrev pub values : List (ℕ × ℕ) → List ℕ
values [] = []
values ((w, v) ∷ fs) = v ∷ values fs

abbrev total_width : List (ℕ × ℕ) → ℕ
total_width [] = 0
total_width ((w, v) ∷ fs) = w + total_width fs

-- Each value fits its width.
unfoldable pub Fits : List (ℕ × ℕ) → Type 0
Fits [] = Unit
Fits ((w, v) ∷ fs) = (v < 256 ^ w) × Fits fs

pub store_fields_outside :
    (fs : List (ℕ × ℕ)) (m : Array ℕ) (a x : ℕ)
    → (x < a) ⊎ (a + total_width fs ≤ x)
    → store_fields fs m a x ≡ m x
unfolding store_fields
store_fields_outside [] m a x h = refl
store_fields_outside ((w, v) ∷ fs) m a x h =
    store_le_outside w (store_fields fs m (a + w)) a v x (omega arith)
    ∙ store_fields_outside fs m (a + w) x (omega arith)

pub load_fields_below :
    (fs : List (ℕ × ℕ)) (m m' : Array ℕ) (a : ℕ)
    → ((x : ℕ) → a ≤ x → x < a + total_width fs → m x ≡ m' x)
    → load_fields fs m a ≡ load_fields fs m' a
unfolding load_fields
load_fields_below [] m m' a h = refl
load_fields_below ((w, v) ∷ fs) m m' a h =
    ap₂ ◌∷◌ (load_le-agree w m m' a (λ x p q. h x p (omega arith)))
      (load_fields_below fs m m' (a + w) (λ x p q. h x (omega arith) (omega arith)))

-- What was stored is loaded.
pub load_fields-store_fields :
    (fs : List (ℕ × ℕ)) (m : Array ℕ) (a : ℕ)
    → Fits fs
    → load_fields fs (store_fields fs m a) a ≡ values fs
unfolding load_fields store_fields Fits
load_fields-store_fields [] m a h = refl
load_fields-store_fields ((w, v) ∷ fs) m a (fits, rest) =
    let inner = store_fields fs m (a + w) in
    ap₂ ◌∷◌ (load_le-store_le w inner a v fits) (
      load_fields_below fs (store_le inner a w v) inner (a + w)
        (λ x p q. store_le_outside w inner a v x (omega arith))
      ∙ load_fields-store_fields fs m (a + w) rest)
