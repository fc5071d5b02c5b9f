-- ===== src/Shell/Sim.antt =====
-- The simulation of kernel/shell.c, which writes numbered packets, and the share of wakeups that
-- it prints. The lines that it prints are left out.
use native.Mathlib.Nat.{div-le_of_le-mul}
use native.Mathlib.Decide.{ℕ_discrete, dec_lt}
use bumbel_bee.Base.{
  ℕ, zero, suc, ◌+◌, ◌-◌, ◌*◌, ◌/◌, ◌%◌, ◌<◌, ◌≤◌, ◌≡◌, ◌≢◌, refl, sym, ◌∙◌, ap, not, ◌&&◌, some,
  List, [], ◌∷◌, ◌++◌, ◌==◌, ne→==, leb, lt→leb, le→leb, ltb, if◌then◌else◌, Bool-cases, inl, inr,
  u64, codes, arith,
}
use bumbel_bee.Data.{Kernel, PowerState}
use bumbel_bee.Format.{buf_digits, emit_unsigned}
use bumbel_bee.Format.Numerals.{kept, emit_string-append, decimal_digit, buf_digits_none}
use bumbel_bee.Net.{netfs_write_path}
use bumbel_bee.Power.{power_get_stats}
use bumbel_bee.Shell.{parse_u32, skip_spaces}

unfoldable pub sim_payload : ℕ → List ℕ
sim_payload i =
    let ones = (48 + i % 10) ∷ [] in
    let tens = if leb 10 i then (48 + i / 10 % 10) ∷ ones else ones in
    codes "sim-" ++ (if leb 100 i then (48 + i / 100 % 10) ∷ tens else tens)

unfoldable pub sim_count : List ℕ → ℕ
unfolding parse_u32 skip_spaces
sim_count args = elim (skip_spaces args) [
  | [] ↦ 100
  | c ∷ s ↦ let parsed = parse_u32 (c ∷ s) in if ltb 0 parsed && leb parsed 256 then parsed else 100
]

-- The loop over the packets, of which `n` are left; it ends with the first that is refused.
unfoldable pub sim_writes : ℕ → ℕ → Kernel → Kernel
unfolding netfs_write_path sim_payload
sim_writes zero i k = k
sim_writes (suc n) i k =
    let (ok, k') = netfs_write_path (some (codes "/net/tx")) (some (sim_payload i)) k in
    let rest = sim_writes n (i + 1) k' in if ok then rest else k'

-- `saved` of `shell_power_status`
unfoldable pub wakeups_saved : PowerState → ℕ
unfolding power_get_stats
wakeups_saved p =
    let stats = power_get_stats p in
    let total = u64 (stats.keyboard_events + stats.net_tx_enqueued) in
    if not (total == 0) && leb stats.wakeups total
    then u64 ((total - stats.wakeups) * 100) / total
    else 0

-- The share is a percentage, whatever the counters are.
wakeups_saved-percent : (p : PowerState) → wakeups_saved p ≤ 100
unfolding wakeups_saved power_get_stats
wakeups_saved-percent p =
    let stats = power_get_stats p in
    let total = u64 (stats.keyboard_events + stats.net_tx_enqueued) in
    let test = not (total == 0) && leb stats.wakeups total in
    elim (Bool-cases test) [
      | inl counted ↦
          let most : u64 ((total - stats.wakeups) * 100) ≤ total * 100 = omega arith in
          rw counted (div-le_of_le-mul total most)
      | inr other ↦ rw other (omega arith)
    ]

-- The number of a packet is printed as the formatter prints it.
buf_digits_step :
    (n v : ℕ) (buf : List ℕ)
    → v ≢ 0
    → buf_digits (suc n) v 10 buf ≡ buf_digits n (v / 10) 10 ((48 + v % 10) ∷ buf)
unfolding buf_digits
buf_digits_step n v buf ne =
    rw (ne→== v 0 ne)
      (ap (λ d. buf_digits n (v / 10) 10 (d ∷ buf)) (decimal_digit (v % 10) (omega arith)))

buf_digits_end : (n v : ℕ) (buf : List ℕ) → v ≡ 0 → buf_digits n v 10 buf ≡ buf
buf_digits_end n v buf e = ap (λ x. buf_digits n x 10 buf) e ∙ buf_digits_none n 10 buf

one_digit : (n i : ℕ) → i ≢ 0 → i < 10 → buf_digits (suc n) i 10 [] ≡ (48 + i % 10) ∷ []
one_digit n i ne high =
    buf_digits_step n i [] ne ∙ buf_digits_end n (i / 10) ((48 + i % 10) ∷ []) (omega arith)

two_digits :
    (n i : ℕ)
    → 10 ≤ i
    → i < 100
    → buf_digits (suc (suc n)) i 10 [] ≡ (48 + i / 10 % 10) ∷ (48 + i % 10) ∷ []
two_digits n i low high =
    let ones = (48 + i % 10) ∷ [] in
    buf_digits_step (suc n) i [] (λ e. omega (arith, e))
    ∙ (buf_digits_step n (i / 10) ones (λ e. omega (arith, e))
        ∙ buf_digits_end n (i / 10 / 10) ((48 + i / 10 % 10) ∷ ones) (omega arith))

three_digits :
    (n i : ℕ)
    → 100 ≤ i
    → i < 1000
    → buf_digits (suc (suc (suc n))) i 10 []
      ≡ (48 + i / 100 % 10) ∷ (48 + i / 10 % 10) ∷ (48 + i % 10) ∷ []
three_digits n i low high =
    let ones = (48 + i % 10) ∷ [] in
    let tens = (48 + i / 10 % 10) ∷ ones in
    let same : i / 10 / 10 % 10 ≡ i / 100 % 10 = omega arith in
    buf_digits_step (suc (suc n)) i [] (λ e. omega (arith, e))
    ∙ (buf_digits_step (suc n) (i / 10) ones (λ e. omega (arith, e))
        ∙ (buf_digits_step n (i / 10 / 10) tens (λ e. omega (arith, e))
            ∙ (buf_digits_end n (i / 10 / 10 / 10) ((48 + i / 10 / 10 % 10) ∷ tens) (omega arith)
                ∙ ap (λ d. (48 + d) ∷ tens) same)))

printed_digits :
    (i : ℕ) (s : List ℕ)
    → i ≢ 0
    → buf_digits 64 i 10 [] ≡ s
    → codes "sim-" ++ s ≡ codes "sim-" ++ emit_unsigned kept i 10 []
unfolding emit_unsigned
printed_digits i s ne e =
    rw (ne→== i 0 ne)
      (ap (λ t. codes "sim-" ++ t) (sym (emit_string-append [] (buf_digits 64 i 10 []) ∙ e)))

-- The payload of a packet is a name and the packet's number, as the formatter prints it.
sim_payload-prints : (i : ℕ) → i < 1000 → sim_payload i ≡ codes "sim-" ++ emit_unsigned kept i 10 []
unfolding sim_payload emit_unsigned
sim_payload-prints i high = elim (ℕ_discrete i 0) [
  | yes e ↦ rw e refl
  | no ne ↦ elim (dec_lt i 10) [
    | yes small ↦
        rw (lt→leb i 10 small, lt→leb i 100 (omega arith))
          (printed_digits i ((48 + i % 10) ∷ []) ne (one_digit 63 i ne small))
    | no more ↦ elim (dec_lt i 100) [
      | yes middle ↦
          rw (le→leb 10 i (omega arith), lt→leb i 100 middle)
            (printed_digits i _ ne (two_digits 62 i (omega arith) middle))
      | no large ↦
          rw (le→leb 10 i (omega arith), le→leb 100 i (omega arith))
            (printed_digits i _ ne (three_digits 61 i (omega arith) high))
    ]
  ]
]
