-- ===== src/Structures/Bitset.antt =====
-- The bit set of include/data_structure/bitset.h: words of 32 bits. A failing `calloc` is left out.
-- An access outside the words has no meaning in C: `none`; `none` also stands for `exit`.
pub mod Bits
pub mod Counting
pub mod Popcount
mod Tests
use cl_mem_regulation.Common.{
  ℕ, zero, suc, ◌+◌, ◌-◌, ◌*◌, ◌/◌, ◌%◌, ◌^◌, ◌==◌, ltb, leb, if◌then◌else◌, Bool, true, false, not,
  ◌&&◌, ◌||◌, Option, none, some, List, [], ◌∷◌, length, get_elem?, get_or, set, replicate, bit,
  ◌>>=◌, complement, bit_and, bit_or, two32,
}

pub record Bitset : Type 0 where
  pub bits : List ℕ
  pub size : ℕ

-- `(size + 31) / 32`
unfoldable pub num_blocks : ℕ → ℕ
num_blocks size = (size + 31) / 32

unfoldable pub bitset__init : ℕ → Bitset
unfolding num_blocks
bitset__init size = record { bits = replicate (num_blocks size) 0; size = size }

-- A word is changed in its place.
unfoldable pub at_word : Bitset → ℕ → (ℕ → ℕ) → Option Bitset
at_word s i f = do w ← get_elem? s.bits i; some (record s { bits = set s.bits i (f w) })

unfoldable pub bitset__set_bit : Bitset → ℕ → Option Bitset
unfolding at_word
bitset__set_bit s index = at_word s (index / 32) (λ w. bit_or w (2 ^ (index % 32)))

unfoldable pub bitset__clear_bit : Bitset → ℕ → Option Bitset
unfolding at_word
bitset__clear_bit s index =
    at_word s (index / 32) (λ w. bit_and w (complement 32 (2 ^ (index % 32))))

unfoldable pub bitset__get_bit : Bitset → ℕ → Option ℕ
bitset__get_bit s index = do w ← get_elem? s.bits (index / 32); some (bit w (index % 32))

-- The loop of `any` with `n` words to look at, from `i` on.
unfoldable pub any_from : ℕ → ℕ → List ℕ → Option Bool
any_from zero i ws = some false
any_from (suc n) i ws = do
  w ← get_elem? ws i
  let rest = any_from n (i + 1) ws in if w == 0 then rest else some true

unfoldable pub bitset__any : Bitset → Option Bool
unfolding any_from num_blocks
bitset__any s = any_from (num_blocks s.size) 0 s.bits

-- One bit is set or cleared, as a test says.
unfoldable pub write_bit : Bitset → ℕ → Bool → Option Bitset
unfolding bitset__set_bit bitset__clear_bit
write_bit s i b = if b then bitset__set_bit s i else bitset__clear_bit s i

-- The loop of `set_bits_from_number` with `n` bits to go, from `i` on; it ends at `size` too.
unfoldable pub from_number : ℕ → ℕ → ℕ → Bitset → Option Bitset
unfolding write_bit
from_number zero i number s = some s
from_number (suc n) i number s =
    let next : Option Bitset = (do
      s' ← write_bit s i (bit number i == 1)
      from_number n (i + 1) number s') in
    if ltb i s.size then next else some s

unfoldable pub bitset__set_bits_from_number : Bitset → ℕ → Option Bitset
unfolding from_number
bitset__set_bits_from_number s number = from_number 32 0 number s

-- The new word of `shift_left` at `i`; a shift by the whole width has no meaning in C.
unfoldable pub left_word : (shift_blocks shift_bits : ℕ) → List ℕ → ℕ → Option ℕ
left_word shift_blocks shift_bits ws i =
    let moved = if leb shift_blocks i then get_or ws (i - shift_blocks) 0 else 0 in
    let carry = get_or ws (i - shift_blocks - 1) 0 / 2 ^ (32 - shift_bits) in
    let carried = if ltb shift_blocks i then bit_or moved carry else moved in
    if ltb shift_blocks i && shift_bits == 0 then none else some (carried * 2 ^ shift_bits % two32)

-- The loop goes down: the words below `i` are still to do.
unfoldable pub left_from : (shift_blocks shift_bits i : ℕ) → List ℕ → Option (List ℕ)
unfolding left_word
left_from shift_blocks shift_bits zero ws = some ws
left_from shift_blocks shift_bits (suc i) ws = do
  w ← left_word shift_blocks shift_bits ws i
  left_from shift_blocks shift_bits i (set ws i w)

unfoldable pub bitset__shift_left : Bitset → ℕ → Option Bitset
unfolding left_from num_blocks
bitset__shift_left s positions = do
  ws ← left_from (positions / 32) (positions % 32) (num_blocks s.size) s.bits
  some (record s { bits = ws })

-- The new word of `shift_right` at `i`.
unfoldable pub right_word : (blocks shift_blocks shift_bits : ℕ) → List ℕ → ℕ → ℕ
right_word blocks shift_blocks shift_bits ws i =
    let src_index = i + shift_blocks in
    let lower_part = if ltb src_index blocks then get_or ws src_index 0 else 0 in
    let upper_part =
      if not (shift_bits == 0) && ltb (src_index + 1) blocks
      then get_or ws (src_index + 1) 0 * 2 ^ (32 - shift_bits) % two32
      else 0 in
    bit_or (lower_part / 2 ^ shift_bits) upper_part

unfoldable pub right_from : ℕ → (blocks shift_blocks shift_bits i : ℕ) → List ℕ → List ℕ
unfolding right_word
right_from zero blocks shift_blocks shift_bits i ws = ws
right_from (suc n) blocks shift_blocks shift_bits i ws =
    right_from n blocks shift_blocks shift_bits (i + 1)
      (set ws i (right_word blocks shift_blocks shift_bits ws i))

-- `n` words from `i` on become 0.
unfoldable pub zero_from : ℕ → ℕ → List ℕ → List ℕ
zero_from zero i ws = ws
zero_from (suc n) i ws = zero_from n (i + 1) (set ws i 0)

unfoldable pub bitset__shift_right : Bitset → ℕ → Bitset
unfolding right_from zero_from num_blocks
bitset__shift_right s positions =
    let shift_blocks = positions / 32 in
    let blocks = num_blocks s.size in
    if leb blocks shift_blocks then record s { bits = zero_from blocks 0 s.bits } else record s {
      bits =
          zero_from shift_blocks (blocks - shift_blocks)
            (right_from blocks blocks shift_blocks (positions % 32) 0 s.bits);
    }

-- The message is left out.
unfoldable pub bitset__to_uint32 : Bitset → Option ℕ
bitset__to_uint32 s = if ltb s.size 32 then some 0 else get_elem? s.bits 0

-- The loop of `uint64_to_bitset`, with `n` bits to go from `i` on.
unfoldable pub copy_bits : ℕ → ℕ → ℕ → Bitset → Option Bitset
unfolding bitset__set_bit
copy_bits zero i value s = some s
copy_bits (suc n) i value s = do
  s' ← (if bit value i == 1 then bitset__set_bit s i else some s)
  copy_bits n (i + 1) value s'

unfoldable pub uint64_to_bitset : ℕ → Option Bitset
unfolding copy_bits bitset__init
uint64_to_bitset value = copy_bits 64 0 value (bitset__init 64)

unfoldable pub and_words : ℕ → ℕ → (ws vs : List ℕ) → Option (List ℕ)
and_words zero i ws vs = some []
and_words (suc n) i ws vs = do
  w ← get_elem? ws i
  v ← get_elem? vs i
  rest ← and_words n (i + 1) ws vs
  some (bit_and w v ∷ rest)

unfoldable pub bitset__and : Bitset → Bitset → Option Bitset
unfolding and_words num_blocks
bitset__and s t =
    let words : Option Bitset = (do
      ws ← and_words (num_blocks s.size) 0 s.bits t.bits
      some (record { bits = ws; size = s.size })) in
    if s.size == t.size then words else none

-- `while (x)`, with `fuel` rounds at most: `none` when they do not end it.
unfoldable pub popcount_loop : ℕ → (x count : ℕ) → Option ℕ
popcount_loop zero x count = if x == 0 then some count else none
popcount_loop (suc fuel) x count =
    let rest = popcount_loop fuel (x / 2) ((count + x % 2) % two32) in
    if x == 0 then some count else rest

unfoldable pub simple__popcount : ℕ → Option ℕ
unfolding popcount_loop
simple__popcount x = popcount_loop 32 x 0

-- include/tools.h: the same loop on 64 bits.
unfoldable pub popcount_uint64 : ℕ → Option ℕ
unfolding popcount_loop
popcount_uint64 n = popcount_loop 64 n 0

unfoldable pub popcount_from : ℕ → ℕ → List ℕ → ℕ → Option ℕ
unfolding simple__popcount
popcount_from zero i ws total = some total
popcount_from (suc n) i ws total = do
  w ← get_elem? ws i
  c ← simple__popcount w
  popcount_from n (i + 1) ws ((total + c) % two32)

unfoldable pub bitset__popcount : Bitset → Option ℕ
unfolding popcount_from num_blocks
bitset__popcount s = popcount_from (num_blocks s.size) 0 s.bits 0

-- The character `binary_str[len - 1 - i]`: '1' is 49, and '0' is 48.
unfoldable pub from_binary : ℕ → ℕ → List ℕ → Bitset → Option Bitset
unfolding write_bit
from_binary zero i binary_str s = some s
from_binary (suc n) i binary_str s =
    let c = get_or binary_str (length binary_str - 1 - i) 0 in
    let next : Option Bitset = (do
      s' ← write_bit s i (c == 49)
      from_binary n (i + 1) binary_str s') in
    if c == 49 || c == 48 then next else none

unfoldable pub bitset__set_bits_from_binary : Bitset → List ℕ → Option Bitset
unfolding from_binary
bitset__set_bits_from_binary s binary_str =
    if ltb s.size (length binary_str) then none else from_binary (length binary_str) 0 binary_str s
