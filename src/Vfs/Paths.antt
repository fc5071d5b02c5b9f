-- ===== src/Vfs/Paths.antt =====
-- The name of a session in kernel/vfs.c: what its number prints as is read as that number.
use native.Mathlib.Nat.{pow-suc}
use bumbel_bee.Base.{
  ℕ, zero, suc, ◌+◌, ◌-◌, ◌*◌, ◌/◌, ◌%◌, ◌^◌, ◌<◌, ◌≤◌, ◌≡◌, ◌≢◌, refl, ◌∙◌, ap, true, some, List,
  [], ◌∷◌, ◌++◌, ne→==, leb, ltb, lt→ltb, le→leb, u32, length, length-append, drop, codes, arith,
}
use native.Mathlib.Decide.{ℕ_discrete}
use bumbel_bee.Strings.{strcmp, strncmp, same_string, same_start}
use bumbel_bee.Text.{stack_digits}
use bumbel_bee.Vfs.{
  path_kind, session_kind, parse_digits, parse_trace_session_id, node_trace_session,
}

-- The digits of a number, in front of those in `tmp`, are read as the number.
digits_read :
    (n v : ℕ) (tmp rest : List ℕ)
    → v < 10 ^ n
    → v < 2 ^ 32
    → parse_digits (stack_digits n v tmp ++ rest) 0 ≡ parse_digits (tmp ++ rest) v
unfolding stack_digits parse_digits
digits_read zero v tmp rest fits word = ap (parse_digits (tmp ++ rest)) (omega arith)
digits_read (suc n) v tmp rest fits word = elim (ℕ_discrete v 0) [
  | yes e ↦ rw e refl
  | no ne ↦
      let p : 10 ^ suc n ≡ 10 ^ n * 10 = pow-suc 10 n in
      let d = 48 + v % 10 in
      let low : leb 48 d ≡ true = le→leb 48 d (omega arith) in
      let high : leb d 57 ≡ true = le→leb d 57 (omega arith) in
      let step : u32 (v / 10 * 10 + (d - 48)) ≡ v = omega arith in
      let head : parse_digits (d ∷ (tmp ++ rest)) (v / 10) ≡ parse_digits (tmp ++ rest) v =
        rw (parse_digits, low, high, step) refl in
      rw (stack_digits, ne→== v 0 ne)
        (digits_read n (v / 10) (d ∷ tmp) rest (omega arith) (omega arith) ∙ head)
]

length-stack_digits : (n v : ℕ) (tmp : List ℕ) → length (stack_digits n v tmp) ≤ n + length tmp
unfolding stack_digits
length-stack_digits zero v tmp = omega arith
length-stack_digits (suc n) v tmp = elim (ℕ_discrete v 0) [
  | yes e ↦ rw e (omega arith)
  | no ne ↦
      rw (stack_digits, ne→== v 0 ne)
        (omega (arith, length-stack_digits n (v / 10) ((48 + v % 10) ∷ tmp)))
]

drop-append : (xs ys : List ℕ) → drop (length xs) (xs ++ ys) ≡ ys
unfolding drop
drop-append [] ys = refl
drop-append (x ∷ xs) ys = drop-append xs ys

abbrev session_digits : ℕ → List ℕ
unfolding stack_digits
session_digits id = stack_digits 32 id []

-- the name under which the index lists a session, below /trace
pub session_path : ℕ → List ℕ
unfolding session_digits
session_path id = codes "/trace/session-" ++ (session_digits id ++ codes ".bin")

length-session_path : (id : ℕ) → length (session_path id) ≡ 19 + length (session_digits id)
unfolding session_path
length-session_path id = omega (arith, length-append (session_digits id) (codes ".bin"))

session_path-suffix :
    (id : ℕ) → drop (length (session_path id) - 4) (session_path id) ≡ codes ".bin"
unfolding session_path
session_path-suffix id =
    let front = codes "/trace/session-" ++ session_digits id in
    let size : length (session_path id) - 4 ≡ length front =
      omega (arith, length-session_path id) in
    ap (λ n. drop n (session_path id)) size ∙ drop-append front (codes ".bin")

session_path_kind : (id : ℕ) → path_kind (session_path id) ≡ node_trace_session
unfolding path_kind session_kind session_path strcmp strncmp same_string same_start
session_path_kind id =
    let long : ltb 11 (length (session_path id)) ≡ true =
      lt→ltb 11 (length (session_path id)) (omega (arith, length-session_path id)) in
    let four : ltb 4 (length (session_path id)) ≡ true =
      lt→ltb 4 (length (session_path id)) (omega (arith, length-session_path id)) in
    rw (path_kind, session_kind, long, four, session_path-suffix id) refl

pub session_path_lem :
    (id : ℕ)
    → id ≢ 0
    → id < 2 ^ 32
    → (path_kind (session_path id) ≡ node_trace_session)
      × (parse_trace_session_id (session_path id) ≡ some id)
      × (length (session_path id) < 64)
unfolding parse_trace_session_id session_path drop strncmp same_start parse_digits
session_path_lem id positive word =
    let read = digits_read 32 id [] (codes ".bin") (omega arith) word in
    (
      session_path_kind id,
      rw (parse_trace_session_id, read, ne→== id 0 positive) refl,
      omega (arith, length-session_path id, length-stack_digits 32 id []),
    )
