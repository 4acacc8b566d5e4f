-- ===== src/Structures/Bitset/Popcount.antt =====
-- The two counts of bits: `popcount_uint64` of include/tools.h on a number, and `bitset__popcount` of
-- include/data_structure/bitset.h on its set.
use cl_mem_regulation.Common.{
  ℕ, zero, suc, ◌+◌, ◌/◌, ◌%◌, ◌<◌, ◌≡◌, refl, sym, ap, ◌∙◌, some, length, get_or, get_elem?-get_or,
  bit, ones, ones-suc, ones-none, ones-le, two32, two64, arith,
}
use cl_mem_regulation.Structures.Bitset.{
  Bitset, num_blocks, popcount_uint64, popcount_from, bitset__popcount, uint64_to_bitset,
}
use cl_mem_regulation.Structures.Bitset.Bits.{Holds, uint64_to_bitset-Holds}
use cl_mem_regulation.Structures.Bitset.Counting.{popcount_loop-ones, simple_popcount-ones}

-- `while (n)` ends within 64 rounds, with the number of bits.
popcount_uint64-ones : (n : ℕ) → n < two64 → popcount_uint64 n ≡ some (ones 64 n)
unfolding popcount_uint64
popcount_uint64-ones n h = popcount_loop-ones 64 n 0 h (omega arith) ∙ ap some (omega arith)

-- The bits of a number from `b` on, when they are those of `a`.
ones-join :
    (w a b k n : ℕ)
    → k ≡ b + w
    → ((i : ℕ) → i < w → bit a i ≡ bit n (b + i))
    → ones b n + ones w a ≡ ones k n
ones-join zero a b k n e h =
    let same : k ≡ b = omega arith in omega (arith, ones-none a, ap (λ x. ones x n) same)
ones-join (suc w) a b k n e h =
    let same : k ≡ suc (b + w) = omega arith in
    omega (
      arith,
      ones-suc w a,
      ones-suc (b + w) n,
      ap (λ x. ones x n) same,
      h w (omega arith),
      ones-join w a b (b + w) n refl (λ i lt. h i (omega arith)),
    )

popcount_from-step :
    (n i total : ℕ) (s : Bitset)
    → i < length s.bits
    → get_or s.bits i 0 < two32
    → popcount_from (suc n) i s.bits total
      ≡ popcount_from n (i + 1) s.bits ((total + ones 32 (get_or s.bits i 0)) % two32)
unfolding popcount_from
popcount_from-step n i total s lt small =
    rw (get_elem?-get_or s.bits i 0 lt, simple_popcount-ones (get_or s.bits i 0) small) refl

-- A bit of a number, in the word that has it.
word_bit :
    (s : Bitset) (f : ℕ → ℕ) (j k i : ℕ)
    → Holds s f
    → j < s.size
    → j / 32 ≡ k
    → j % 32 ≡ i
    → bit (get_or s.bits k 0) i ≡ f j
word_bit s f j k i h lt word place = rw (word, place) at (h.reads j lt)

two_words :
    (s : Bitset) (n : ℕ) → s.size ≡ 64 → Holds s (bit n) → bitset__popcount s ≡ some (ones 64 n)
unfolding bitset__popcount num_blocks popcount_from
two_words s n z h =
    let w0 = get_or s.bits 0 0 in
    let w1 = get_or s.bits 1 0 in
    let long : length s.bits ≡ 2 = h.words ∙ ap num_blocks z in
    let low : ones 0 n + ones 32 w0 ≡ ones 32 n =
      ones-join 32 w0 0 32 n refl
        (λ i lt. word_bit s (bit n) (0 + i) 0 i h (omega (arith, z)) (omega arith) (omega arith)) in
    let both : ones 32 n + ones 32 w1 ≡ ones 64 n =
      ones-join 32 w1 32 64 n refl (λ i lt.
        word_bit s (bit n) (32 + i) 1 i h (omega (arith, z)) (omega arith) (omega arith)) in
    ap (λ k. popcount_from k 0 s.bits 0) (ap num_blocks z)
    ∙ popcount_from-step 1 0 0 s (omega (arith, long)) (h.fits 0)
    ∙ popcount_from-step 0 1 _ s (omega (arith, long)) (h.fits 1)
    ∙ ap some (omega (arith, low, both, ones-none n, ones-le 32 w0, ones-le 32 w1))

-- `popcount_uint64` of a number of 64 bits ends within 64 rounds, and counts as many bits as
-- `bitset__popcount` counts in the set that `uint64_to_bitset` makes of the number.
pub popcount_uint64-bitset__popcount :
    (n : ℕ)
    → n < two64
    → (s : Bitset) × (uint64_to_bitset n ≡ some s)
      × (popcount_uint64 n ≡ bitset__popcount s)
      × (popcount_uint64 n ≡ some (ones 64 n))
popcount_uint64-bitset__popcount n h =
    let (s, e, z, holds) = uint64_to_bitset-Holds n in
    let counted = popcount_uint64-ones n h in (s, e, counted ∙ sym (two_words s n z holds), counted)
