-- ===== src/Structures/Bitset/Tests.antt =====
-- Bit sets at concrete values, and the theorems there.
use cl_mem_regulation.Common.{ones, ◌≡◌, refl, arith, some, none, true, [], ◌∷◌, update}
use cl_mem_regulation.Structures.Bitset.{
  Bitset, uint64_to_bitset, popcount_uint64, num_blocks, bitset__init, at_word, bitset__set_bit,
  bitset__clear_bit, any_from, bitset__any, write_bit, from_number, bitset__set_bits_from_number,
  left_word, left_from, bitset__shift_left, right_word, right_from, zero_from, bitset__shift_right,
  bitset__to_uint32, and_words, bitset__and, popcount_loop, simple__popcount, popcount_from,
  bitset__popcount, from_binary, bitset__set_bits_from_binary,
}
use cl_mem_regulation.Structures.Bitset.Popcount.{popcount_uint64-bitset__popcount}
use cl_mem_regulation.Structures.Bitset.Bits.{Holds, init-Holds, write_bit-Holds}

abbrev two_words : Bitset
two_words = record { bits = 0x8000_0001 ∷ 1 ∷ []; size = 64 }

-- Bit 31, moved up by one, comes out as bit 33; a shift by nothing has no meaning.
shift_run :
    (bitset__shift_left (record two_words { bits = 0x8000_0000 ∷ 0 ∷ [] }) 1
      ≡ some (record two_words { bits = 0 ∷ 2 ∷ [] }))
    × (bitset__shift_left two_words 0 ≡ none)
    × (bitset__shift_right two_words 1 ≡ record two_words { bits = 0xc000_0000 ∷ 0 ∷ [] })
    × (bitset__shift_right two_words 32 ≡ record two_words { bits = 1 ∷ 0 ∷ [] })
    × (bitset__shift_right two_words 64 ≡ record two_words { bits = 0 ∷ 0 ∷ [] })
unfolding bitset__shift_left left_from left_word bitset__shift_right right_from right_word zero_from
    num_blocks
shift_run = (refl, refl, refl, refl, refl)

words_run :
    (bitset__to_uint32 two_words ≡ some 0x8000_0001)
    × (bitset__popcount two_words ≡ some 3)
    × (bitset__any two_words ≡ some true)
    × (bitset__and two_words (record two_words { bits = 1 ∷ 3 ∷ [] })
        ≡ some (record two_words { bits = 1 ∷ 1 ∷ [] }))
    × (bitset__set_bits_from_number (bitset__init 8) 0x105
        ≡ some (record { bits = 5 ∷ []; size = 8 }))
    × (bitset__set_bits_from_binary (bitset__init 8) (49 ∷ 49 ∷ 48 ∷ [])
        ≡ some (record { bits = 6 ∷ []; size = 8 }))
    × (bitset__set_bits_from_binary (bitset__init 8) (49 ∷ 50 ∷ []) ≡ none)
unfolding bitset__to_uint32 bitset__popcount popcount_from simple__popcount popcount_loop
    bitset__any any_from bitset__and and_words num_blocks bitset__set_bits_from_number from_number
    write_bit bitset__set_bit bitset__clear_bit at_word bitset__init bitset__set_bits_from_binary
    from_binary
words_run = (refl, refl, refl, refl, refl, refl, refl)

write_bit-Holds_example :
    (s' : Bitset) × (write_bit (bitset__init 40) 33 true ≡ some s')
    × (s'.size ≡ (bitset__init 40).size)
    × Holds s' (update (λ j. 0) 33 1)
unfolding bitset__init
write_bit-Holds_example =
    write_bit-Holds (bitset__init 40) (λ j. 0) 33 true (init-Holds 40) (omega arith)

popcount_uint64-bitset__popcount_example :
    (s : Bitset) × (uint64_to_bitset 0x8_0000_0003 ≡ some s)
    × (popcount_uint64 0x8_0000_0003 ≡ bitset__popcount s)
    × (popcount_uint64 0x8_0000_0003 ≡ some (ones 64 0x8_0000_0003))
popcount_uint64-bitset__popcount_example =
    popcount_uint64-bitset__popcount 0x8_0000_0003 (omega arith)
