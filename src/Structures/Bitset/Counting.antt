-- ===== src/Structures/Bitset/Counting.antt =====
-- include/data_structure/bitset.h: the loops that count bits, and `any`.
use cl_mem_regulation.Common.{
  ℕ, zero, suc, ◌+◌, ◌/◌, ◌%◌, ◌^◌, ◌<◌, ◌≤◌, ◌≡◌, ◌≢◌, refl, ap, ◌∙◌, true, false, some, List,
  length, get_or, get_elem?-get_or, bit, ones, ones-half, ones-zero, two32, arith, get_or-replicate,
  length-replicate, bit-zero,
}
use cl_mem_regulation.Structures.Bitset.{
  Bitset, num_blocks, any_from, bitset__any, bitset__init, popcount_loop, simple__popcount,
}
use cl_mem_regulation.Structures.Bitset.Bits.{Holds}
use native.Mathlib.Nat.{pow-succ'}

pub popcount_loop-ones :
    (fuel x count : ℕ)
    → x < 2 ^ fuel
    → count + fuel < two32
    → popcount_loop fuel x count ≡ some (count + ones fuel x)
unfolding popcount_loop
popcount_loop-ones zero x count h small = ground (arith, ones-zero 0)
popcount_loop-ones (suc fuel) x count h small = ground (
  arith,
  ones-half fuel x,
  ones-zero (suc fuel),
  popcount_loop-ones fuel (x / 2) ((count + x % 2) % two32) (omega (arith, pow-succ' 2 fuel))
      (omega arith),
)

-- `while (x)` ends within 32 rounds on every word, with the number of its bits.
pub simple_popcount-ones : (x : ℕ) → x < two32 → simple__popcount x ≡ some (ones 32 x)
unfolding simple__popcount
simple_popcount-ones x h =
    let e : 0 + ones 32 x ≡ ones 32 x = omega arith in
    popcount_loop-ones 32 x 0 h (omega arith) ∙ ap some e

any_from-true :
    (n i k : ℕ) (ws : List ℕ)
    → i ≤ k
    → k < i + n
    → i + n ≤ length ws
    → get_or ws k 0 ≢ 0
    → any_from n i ws ≡ some true
unfolding any_from
any_from-true zero i k ws p q r h = absurd (omega arith)
any_from-true (suc n) i k ws p q r h =
    ground (arith, get_elem?-get_or ws i 0 (omega arith), any_from-true n (i + 1) k ws, h)

any_from-false :
    (n i : ℕ) (ws : List ℕ)
    → i + n ≤ length ws
    → ((k : ℕ) → get_or ws k 0 ≡ 0)
    → any_from n i ws ≡ some false
unfolding any_from
any_from-false zero i ws r h = refl
any_from-false (suc n) i ws r h =
    rw (get_elem?-get_or ws i 0 (omega arith), h i) (any_from-false n (i + 1) ws (omega arith) h)

-- `any` says yes when some bit is set.
pub any-true :
    (s : Bitset) (f : ℕ → ℕ) (j : ℕ) → Holds s f → j < s.size → f j ≡ 1 → bitset__any s ≡ some true
unfolding bitset__any num_blocks
any-true s f j h lt e =
    any_from-true _ 0 (j / 32) s.bits (omega arith) (omega arith) (omega (arith, h.words))
      (λ z. omega (arith, h.reads j lt, ap (λ w. bit w (j % 32)) z, bit-zero (j % 32), e))

pub any-init : (size : ℕ) → bitset__any (bitset__init size) ≡ some false
unfolding bitset__any bitset__init
any-init size =
    any_from-false _ 0 _ (omega (arith, length-replicate {A = ℕ} (num_blocks size) 0))
      (λ k. get_or-replicate {A = ℕ} (num_blocks size) k 0)
