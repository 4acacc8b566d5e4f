-- ===== src/Structures/Bitset/Bits.antt =====
-- include/data_structure/bitset.h: a bit set against a function from its indices to 0 and 1.
use cl_mem_regulation.Common.{
  ℕ, zero, suc, ◌+◌, ◌/◌, ◌%◌, ◌^◌, ◌<◌, ◌≤◌, ◌≡◌, ◌≢◌, refl, sym, ap, ◌∙◌, ◌==◌, ltb,
  if◌then◌else◌, Bool, true, false, some, length, get_or, get_elem?-get_or, set, length-set,
  length-replicate, get_or-set_self, get_or-set_ne, get_or-replicate, update, update_self,
  update_ne, bit, complement, bit_and, bit_or, bit-bit_or, bit-bit_and, bit-complement,
  bit-pow_self, bit-pow_ne, bit_or-le, bit_and-le, bit-zero, bit-lt, pow-lt, two32, arith, dec_lt,
  lt→ltb, ℕ_discrete,
}
use cl_mem_regulation.Structures.Bitset.{
  Bitset, num_blocks, bitset__init, at_word, bitset__set_bit, bitset__clear_bit, bitset__get_bit,
  write_bit, from_number, bitset__set_bits_from_number, copy_bits, uint64_to_bitset,
}

pub record Holds (s : Bitset) (f : ℕ → ℕ) : Type 0 where
  pub words : length s.bits ≡ num_blocks s.size
  pub fits : (i : ℕ) → get_or s.bits i 0 < two32
  pub reads : (j : ℕ) → j < s.size → bit (get_or s.bits (j / 32) 0) (j % 32) ≡ f j

word_there : (s : Bitset) (f : ℕ → ℕ) (j : ℕ) → Holds s f → j < s.size → j / 32 < length s.bits
unfolding num_blocks
word_there s f j h lt = omega (arith, h.words)

-- `get_bit` reads the function.
pub get_bit-Holds :
    (s : Bitset) (f : ℕ → ℕ) (j : ℕ) → Holds s f → j < s.size → bitset__get_bit s j ≡ some (f j)
unfolding bitset__get_bit
get_bit-Holds s f j h lt =
    rw (get_elem?-get_or s.bits (j / 32) 0 (word_there s f j h lt)) (ap some (h.reads j lt))

-- The word that `set_bit` and `clear_bit` write.
abbrev written : Bool → ℕ → ℕ → ℕ
written true w k = bit_or w (2 ^ k)
written false w k = bit_and w (complement 32 (2 ^ k))

abbrev digit : Bool → ℕ
digit b = if b then 1 else 0

written_fits : (b : Bool) (w k : ℕ) → w < two32 → k < 32 → written b w k < two32
written_fits true w k h lt = bit_or-le 32 w (2 ^ k) h (pow-lt k 32 lt)
written_fits false w k h lt = bit_and-le 32 w (complement 32 (2 ^ k)) h

written_self : (b : Bool) (w k : ℕ) → k < 32 → bit (written b w k) k ≡ digit b
written_self true w k lt = omega (arith, bit-bit_or k w (2 ^ k), bit-pow_self k, bit-lt w k)
written_self false w k lt = omega (
  arith,
  bit-bit_and k w (complement 32 (2 ^ k)),
  bit-complement 32 k (2 ^ k) (pow-lt k 32 lt) lt,
  bit-pow_self k,
)

written_ne : (b : Bool) (w k m : ℕ) → k < 32 → m < 32 → k ≢ m → bit (written b w k) m ≡ bit w m
written_ne true w k m lt lt' ne = omega (arith, bit-bit_or m w (2 ^ k), bit-pow_ne k m ne)
written_ne false w k m lt lt' ne = omega (
  arith,
  bit-bit_and m w (complement 32 (2 ^ k)),
  bit-complement 32 m (2 ^ k) (pow-lt k 32 lt) lt',
  bit-pow_ne k m ne,
  bit-lt w m,
)

abbrev after : Bitset → ℕ → Bool → Bitset
after s i b = record s {
  bits = set s.bits (i / 32) (written b (get_or s.bits (i / 32) 0) (i % 32));
}

write_bit-after :
    (s : Bitset) (i : ℕ) (b : Bool) → i / 32 < length s.bits → write_bit s i b ≡ some (after s i b)
unfolding write_bit bitset__set_bit bitset__clear_bit at_word
write_bit-after s i true h = rw (get_elem?-get_or s.bits (i / 32) 0 h) refl
write_bit-after s i false h = rw (get_elem?-get_or s.bits (i / 32) 0 h) refl

after_fits :
    (s : Bitset) (f : ℕ → ℕ) (i : ℕ) (b : Bool)
    → Holds s f
    → i < s.size
    → (j : ℕ) → get_or (after s i b).bits j 0 < two32
after_fits s f i b h lt j = elim (ℕ_discrete (i / 32) j) [
  | yes e ↦
      rw
        (
          ← e,
          get_or-set_self s.bits (i / 32) (written b (get_or s.bits (i / 32) 0) (i % 32)) 0
              (word_there s f i h lt),
        )
        (written_fits b _ (i % 32) (h.fits _) (omega arith))
  | no n ↦
      rw (get_or-set_ne s.bits (i / 32) j (written b (get_or s.bits (i / 32) 0) (i % 32)) 0 n)
        (h.fits j)
]

after_self :
    (s : Bitset) (f : ℕ → ℕ) (i : ℕ) (b : Bool)
    → Holds s f
    → i < s.size
    → bit (get_or (after s i b).bits (i / 32) 0) (i % 32) ≡ digit b
after_self s f i b h lt =
    rw
      (get_or-set_self s.bits (i / 32) (written b (get_or s.bits (i / 32) 0) (i % 32)) 0
        (word_there s f i h lt))
      (written_self b _ (i % 32) (omega arith))

after_ne :
    (s : Bitset) (f : ℕ → ℕ) (i j : ℕ) (b : Bool)
    → Holds s f
    → i < s.size
    → i ≢ j
    → bit (get_or (after s i b).bits (j / 32) 0) (j % 32) ≡ bit (get_or s.bits (j / 32) 0) (j % 32)
after_ne s f i j b h lt ne = elim (ℕ_discrete (i / 32) (j / 32)) [
  | yes e ↦
      rw
        (
          ← e,
          get_or-set_self s.bits (i / 32) (written b (get_or s.bits (i / 32) 0) (i % 32)) 0
              (word_there s f i h lt),
        )
        (written_ne b _ (i % 32) (j % 32) (omega arith) (omega arith) (omega arith))
  | no n ↦
      rw
        (get_or-set_ne s.bits (i / 32) (j / 32) (written b (get_or s.bits (i / 32) 0) (i % 32)) 0 n)
        refl
]

after-Holds :
    (s : Bitset) (f : ℕ → ℕ) (i : ℕ) (b : Bool)
    → Holds s f
    → i < s.size
    → Holds (after s i b) (update f i (digit b))
after-Holds s f i b h lt = record {
  words = length-set s.bits (i / 32) _ ∙ h.words;
  fits = after_fits s f i b h lt;
  reads = λ j lt'. elim (ℕ_discrete i j) [
    | yes e ↦ rw (← e) (after_self s f i b h lt ∙ sym (update_self f i (digit b)))
    | no n ↦
        after_ne s f i j b h lt n ∙ h.reads j lt' ∙ sym (update_ne f i j (digit b) (λ e. n (sym e)))
  ];
}

-- `set_bit` and `clear_bit` change the function at one index below the size, and nothing else.
pub write_bit-Holds :
    (s : Bitset) (f : ℕ → ℕ) (i : ℕ) (b : Bool)
    → Holds s f
    → i < s.size
    → (s' : Bitset) × (write_bit s i b ≡ some s')
      × (s'.size ≡ s.size)
      × Holds s' (update f i (digit b))
write_bit-Holds s f i b h lt =
    (after s i b, write_bit-after s i b (word_there s f i h lt), refl, after-Holds s f i b h lt)

pub init-Holds : (size : ℕ) → Holds (bitset__init size) (λ j. 0)
unfolding bitset__init
init-Holds size = record {
  words = length-replicate (num_blocks size) 0;
  fits = λ i. rw (get_or-replicate {A = ℕ} (num_blocks size) i 0) (omega arith);
  reads = λ j lt. rw (get_or-replicate {A = ℕ} (num_blocks size) (j / 32) 0) (bit-zero (j % 32));
}

abbrev reads_as :
    (s : Bitset) (f g : ℕ → ℕ) → Holds s f → ((j : ℕ) → j < s.size → f j ≡ g j) → Holds s g
reads_as s f g h e = record {
  words = h.words;
  fits = h.fits;
  reads = λ j lt. h.reads j lt ∙ e j lt;
}

-- The bits below `i` are those of `value`, and the others are those of `f0`.
abbrev Mixed : ℕ → ℕ → (f0 f : ℕ → ℕ) → Type 0
Mixed value i f0 f = ((j : ℕ) → j < i → f j ≡ bit value j) × ((j : ℕ) → i ≤ j → f j ≡ f0 j)

mixed_digit : (value i : ℕ) → digit (bit value i == 1) ≡ bit value i
mixed_digit value i = ground (arith, bit-lt value i)

Mixed-suc :
    (value i : ℕ) (f0 f : ℕ → ℕ)
    → Mixed value i f0 f
    → Mixed value (i + 1) f0 (update f i (digit (bit value i == 1)))
Mixed-suc value i f0 f m = (
  λ j lt. elim (ℕ_discrete i j) [
    | yes e ↦ rw (← e) (update_self f i _ ∙ mixed_digit value i)
    | no n ↦ update_ne f i j _ (λ e. n (sym e)) ∙ m.0 j (omega arith)
  ],
  λ j le. update_ne f i j _ (λ e. omega arith) ∙ m.1 j (omega arith),
)

Mixed-done :
    (number i j : ℕ) (f0 f : ℕ → ℕ)
    → Mixed number i f0 f
    → (j < i → j < 32)
    → (i ≤ j → 32 ≤ j)
    → f j ≡ (if ltb j 32 then bit number j else f0 j)
Mixed-done number i j f0 f m below above = ground (arith, m.0 j, m.1 j)

from_number-Holds :
    (n i number : ℕ) (s : Bitset) (f0 f : ℕ → ℕ)
    → i + n ≡ 32
    → Mixed number i f0 f
    → Holds s f
    → (s' : Bitset) × (from_number n i number s ≡ some s')
      × (s'.size ≡ s.size)
      × Holds s' (λ j. if ltb j 32 then bit number j else f0 j)
unfolding from_number
from_number-Holds zero i number s f0 f e m h = (
  s,
  refl,
  refl,
  reads_as s f _ h (λ j lt. Mixed-done number i j f0 f m (λ p. omega arith) (λ p. omega arith)),
)
from_number-Holds (suc n) i number s f0 f e m h = elim (dec_lt i s.size) [
  | yes lt ↦
      let (s1, e1, z1, h1) = write_bit-Holds s f i (bit number i == 1) h lt in
      let (s2, e2, z2, h2) =
        from_number-Holds n (i + 1) number s1 f0 _ (omega arith) (Mixed-suc number i f0 f m) h1 in
      rw (lt→ltb i s.size lt, e1) (s2, e2, z2 ∙ z1, h2)
  | no ge ↦ (
    s,
    ground arith,
    refl,
    reads_as s f _ h (λ j lt. Mixed-done number i j f0 f m (λ p. omega arith) (λ p. omega arith)),
  )
]

-- `set_bits_from_number` writes the 32 bits of the number, as far as the set reaches, and keeps the rest.
pub set_bits_from_number-Holds :
    (s : Bitset) (f : ℕ → ℕ) (number : ℕ)
    → Holds s f
    → (s' : Bitset) × (bitset__set_bits_from_number s number ≡ some s')
      × (s'.size ≡ s.size)
      × Holds s' (λ j. if ltb j 32 then bit number j else f j)
unfolding bitset__set_bits_from_number
set_bits_from_number-Holds s f number h =
    from_number-Holds 32 0 number s f f refl ((λ j lt. absurd (omega arith)), (λ j le. refl)) h

-- A bit that is 0 in the set need not be cleared.
copy_bit :
    (b : Bool) (s : Bitset) (f : ℕ → ℕ) (i : ℕ)
    → f i ≡ 0
    → Holds s f
    → i < s.size
    → (s' : Bitset) × ((if b then bitset__set_bit s i else some s) ≡ some s')
      × (s'.size ≡ s.size)
      × Holds s' (update f i (digit b))
unfolding write_bit
copy_bit true s f i z h lt = write_bit-Holds s f i true h lt
copy_bit false s f i z h lt = (
  s,
  refl,
  refl,
  reads_as s f _ h (λ j p. elim (ℕ_discrete i j) [
    | yes e ↦ rw (← e) (z ∙ sym (update_self f i 0))
    | no n ↦ sym (update_ne f i j 0 (λ e. n (sym e)))
  ]),
)

copy_bits-Holds :
    (n i value : ℕ) (s : Bitset) (f : ℕ → ℕ)
    → i + n ≡ s.size
    → Mixed value i (λ j. 0) f
    → Holds s f
    → (s' : Bitset) × (copy_bits n i value s ≡ some s') × (s'.size ≡ s.size) × Holds s' (bit value)
unfolding copy_bits
copy_bits-Holds zero i value s f e m h =
    (s, refl, refl, reads_as s f _ h (λ j lt. m.0 j (omega arith)))
copy_bits-Holds (suc n) i value s f e m h =
    let (s1, e1, z1, h1) =
      copy_bit (bit value i == 1) s f i (m.1 i (omega arith)) h (omega arith) in
    let (s2, e2, z2, h2) =
      copy_bits-Holds n (i + 1) value s1 _ (omega (arith, z1)) (Mixed-suc value i (λ j. 0) f m)
        h1 in
    rw e1 (s2, e2, z2 ∙ z1, h2)

-- `uint64_to_bitset` makes a set of 64 whose bits are those of the value.
pub uint64_to_bitset-Holds :
    (value : ℕ)
    → (s : Bitset) × (uint64_to_bitset value ≡ some s) × (s.size ≡ 64) × Holds s (bit value)
unfolding uint64_to_bitset bitset__init
uint64_to_bitset-Holds value =
    copy_bits-Holds 64 0 value (bitset__init 64) (λ j. 0) refl
      ((λ j lt. absurd (omega arith)), (λ j le. refl)) (init-Holds 64)
