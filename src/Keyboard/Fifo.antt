-- ===== src/Keyboard/Fifo.antt =====
-- The input ring is a first-in first-out queue while it holds fewer than 256 characters; beyond
-- that a new character replaces the oldest.
use bumbel_bee.Base.{
  ℕ, suc, ◌+◌, ◌-◌, ◌%◌, ◌^◌, ◌<◌, ◌≡◌, ◌∙◌, ap, ◌≢◌, none, some, List, [], ◌∷◌, ◌++◌, write, ne→==,
  arith,
}
use bumbel_bee.Data.{KeyboardState}
use bumbel_bee.Ring.{window, window_mod, window-write, window-cons, IsModulus-256}
use bumbel_bee.Keyboard.{keyboard_getchar, keyboard_buffer_put, buffer_size}

-- Both indices are 32-bit words.
pub record IsWord (kb : KeyboardState) : Type 0 where
  pub head : kb.head < 2 ^ 32
  pub tail : kb.tail < 2 ^ 32

-- How many characters wait, as the 32-bit difference of the indices.
abbrev pub unread_count : KeyboardState → ℕ
unread_count kb = (kb.head + 2 ^ 32 - kb.tail) % 2 ^ 32

abbrev pub unread : KeyboardState → List ℕ
unread kb = window buffer_size kb.buffer kb.tail (unread_count kb)

pub put-IsWord : (ch : ℕ) (kb : KeyboardState) → IsWord kb → IsWord (keyboard_buffer_put ch kb)
unfolding keyboard_buffer_put
put-IsWord ch kb w = ground arith

pub count-put :
    (ch : ℕ) (kb : KeyboardState)
    → IsWord kb
    → unread_count kb < buffer_size
    → unread_count (keyboard_buffer_put ch kb) ≡ suc (unread_count kb)
unfolding keyboard_buffer_put
count-put ch kb w lt = omega arith

-- With room in the ring, and its indices 32-bit words, a character that is put is read last.
pub unread-put :
    (ch : ℕ) (kb : KeyboardState)
    → IsWord kb
    → unread_count kb < buffer_size
    → unread (keyboard_buffer_put ch kb) ≡ unread kb ++ (ch ∷ [])
unfolding keyboard_buffer_put
unread-put ch kb w lt =
    ap (λ n. window buffer_size (write kb.buffer (kb.head % buffer_size) ch) kb.tail n)
      (count-put ch kb w lt)
    ∙ window-write buffer_size IsModulus-256 kb.buffer kb.tail (unread_count kb)
        (kb.head % buffer_size) ch lt (omega arith)

-- Where the indices are 32-bit words, reading takes the first unread character, and from a ring
-- without any it takes nothing and changes nothing.
unread-get :
    (kb : KeyboardState)
    → IsWord kb
    → ((unread_count kb ≡ 0) → keyboard_getchar kb ≡ (none, kb))
      × ((unread_count kb ≢ 0)
          → (ch : ℕ) × ((keyboard_getchar kb).0 ≡ some ch)
            × (unread kb ≡ ch ∷ unread (keyboard_getchar kb).1))
unfolding keyboard_getchar
unread-get kb w = (
  λ e. ground arith,
  λ ne. (
    kb.buffer (kb.tail % buffer_size),
    ground arith,
    rw (ne→== kb.head kb.tail (λ q. ne (omega arith))) (rest ne),
  ),
)
  where
    rest :
        unread_count kb ≢ 0
        → unread kb
          ≡ kb.buffer (kb.tail % buffer_size) ∷ unread (record kb { tail = (kb.tail + 1) % 2 ^ 32 })
    rest ne =
        window-cons buffer_size kb.buffer kb.tail (unread_count kb) ne
        ∙ ap (λ l. kb.buffer (kb.tail % buffer_size) ∷ l)
            (window_mod buffer_size IsModulus-256 kb.buffer (kb.tail + 1) ((kb.tail + 1) % 2 ^ 32)
                (unread_count kb - 1) (omega arith)
              ∙ ap (window buffer_size kb.buffer ((kb.tail + 1) % 2 ^ 32)) (omega arith))

-- A character that is put into a ring with 256 unread characters, whose indices are 32-bit words,
-- is the one that is read next.
pub put_overrun :
    (ch : ℕ) (kb : KeyboardState)
    → IsWord kb
    → unread_count kb ≡ buffer_size
    → (keyboard_getchar (keyboard_buffer_put ch kb)).0 ≡ some ch
unfolding keyboard_getchar keyboard_buffer_put
put_overrun ch kb w e = ground arith
