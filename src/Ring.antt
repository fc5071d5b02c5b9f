-- ===== src/Ring.antt =====
-- Ring buffers: an array read and written at indices modulo its length. The part that holds data is
-- a window; the keyboard, power and network queues are its uses.
use bumbel_bee.Base.{
  ℕ, zero, suc, ◌+◌, ◌-◌, ◌%◌, ◌<◌, ◌≡◌, refl, ◌∙◌, sym, ap, ap₂, ◌≢◌, List, [], ◌∷◌, ◌++◌, Array,
  write, write_self, write_ne, length, get_or, arith,
}

-- What the window needs of reduction modulo the ring's length.
pub record IsModulus (cap : ℕ) : Type 0 where
  pub distinct : (x y : ℕ) → x < y → y < x + cap → y % cap ≢ x % cap
  pub step : (x y : ℕ) → x % cap ≡ y % cap → (x + 1) % cap ≡ (y + 1) % cap

pub IsModulus-256 : IsModulus 256
IsModulus-256 = record { distinct = λ x y p q e. omega arith; step = λ x y e. omega arith }

pub IsModulus-512 : IsModulus 512
IsModulus-512 = record { distinct = λ x y p q e. omega arith; step = λ x y e. omega arith }

pub IsModulus-32 : IsModulus 32
IsModulus-32 = record { distinct = λ x y p q e. omega arith; step = λ x y e. omega arith }

module _ {ℓ} {A : Type ℓ} where
  -- the `n` elements from index `h` on, going round at `cap`
  abbrev pub window : ℕ → Array A → ℕ → ℕ → List A
  window cap a h zero = []
  window cap a h (suc n) = a (h % cap) ∷ window cap a (h + 1) n

  pub length-window : (cap : ℕ) (a : Array A) (h n : ℕ) → length (window cap a h n) ≡ n
  length-window cap a h zero = refl
  length-window cap a h (suc n) = ap suc (length-window cap a (h + 1) n)

  pub get_or-window :
      (cap : ℕ) (a : Array A) (h n i : ℕ) (d : A)
      → i < n
      → get_or (window cap a h n) i d ≡ a ((h + i) % cap)
  get_or-window cap a h zero i d lt = absurd (omega arith)
  get_or-window cap a h (suc n) zero d lt = ap (λ k. a (k % cap)) (omega arith)
  get_or-window cap a h (suc n) (suc i) d lt =
      get_or-window cap a (h + 1) n i d (omega arith) ∙ ap (λ k. a (k % cap)) (omega arith)

  -- Only the start's place in the ring counts.
  pub window_mod :
      (cap : ℕ) (m : IsModulus cap) (a : Array A) (x y n : ℕ)
      → x % cap ≡ y % cap
      → window cap a x n ≡ window cap a y n
  window_mod cap m a x y zero e = refl
  window_mod cap m a x y (suc n) e =
      ap₂ ◌∷◌ (ap a e) (window_mod cap m a (x + 1) (y + 1) n (m.step x y e))

  pub window-cons :
      (cap : ℕ) (a : Array A) (h n : ℕ)
      → n ≢ 0
      → window cap a h n ≡ a (h % cap) ∷ window cap a (h + 1) (n - 1)
  window-cons cap a h zero ne = absurd (ne refl)
  window-cons cap a h (suc n) ne = ap (λ k. window cap a h (suc k)) (omega arith)

  -- The last element of a window stands just before its end.
  pub window-snoc :
      (cap : ℕ) (a : Array A) (h n : ℕ)
      → window cap a h (suc n) ≡ window cap a h n ++ (a ((h + n) % cap) ∷ [])
  window-snoc cap a h zero = ap (λ k. a (k % cap) ∷ []) (omega arith)
  window-snoc cap a h (suc n) =
      ap (λ l. a (h % cap) ∷ l)
        (window-snoc cap a (h + 1) n
          ∙ ap (λ k. window cap a (h + 1) n ++ (a (k % cap) ∷ [])) (omega arith))

  -- Writing just past a window that does not fill the ring leaves it alone.
  pub window_past :
      (cap : ℕ) (m : IsModulus cap) (a : Array A) (h n e : ℕ) (v : A)
      → n < cap
      → e ≡ (h + n) % cap
      → window cap (write a e v) h n ≡ window cap a h n
  window_past cap m a h zero e v lt p = refl
  window_past cap m a h (suc n) e v lt p =
      ap₂ ◌∷◌
        (write_ne a e (h % cap) v
          (λ q. m.distinct h (h + suc n) (omega arith) (omega arith) (sym p ∙ q)))
        (window_past cap m a (h + 1) n e v (omega arith) (p ∙ ap (λ k. k % cap) (omega arith)))

  -- It extends the window.
  pub window-write :
      (cap : ℕ) (m : IsModulus cap) (a : Array A) (h n e : ℕ) (v : A)
      → n < cap
      → e ≡ (h + n) % cap
      → window cap (write a e v) h (suc n) ≡ window cap a h n ++ (v ∷ [])
  window-write cap m a h n e v lt p =
      window-snoc cap (write a e v) h n
      ∙ ap₂ (λ l x. l ++ (x ∷ [])) (window_past cap m a h n e v lt p)
          (ap (write a e v) (sym p) ∙ write_self a e v)
