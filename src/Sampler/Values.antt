-- ===== src/Sampler/Values.antt =====
-- The values of the counters in include/sampler.h: the places in the sample buffer, and what a sample
-- adds to them. A vector is the list of its elements, and a map a function from its keys.
pub mod Places
pub mod Sum
pub mod Reading
mod Tests
use cl_mem_regulation.Common.{
  ℕ, zero, suc, ◌+◌, ◌*◌, ◌/◌, ◌^◌, ◌==◌, ltb, if◌then◌else◌, Bool, true, false, not, ◌&&◌, Option,
  none, some, List, [], ◌∷◌, ◌++◌, length, get_elem?, set, map, update, u32, u64, two32, is_neg32,
  ◌>>=◌, Outcome, finished, undefined, exits, ◌>=>◌,
}
use cl_mem_regulation.Counters.{BlockType, hardware, RegisteredCounter}
use cl_mem_regulation.Structures.Set.{SetNode, CounterSet}
use cl_mem_regulation.Device.Extents.{type_number}
use cl_mem_regulation.Sampler.Backend.{
  Backend, VinstrSample, backend__start, backend__stop, backend__request_sample, sample__init,
}
use cl_mem_regulation.Sampler.Blocks.{
  Reader, BlockMetadata, BlocksView, blocks_view__init, blocks_view__begin, blocks_view__end, walk,
}

pub record OffsetToBufferPos : Type 0 where
  pub block_offset : ℕ
  pub buffer_pos : ℕ
  pub shift : ℕ

pub data CounterSampleType : Type 0 where
  uint64_sample float64_sample : CounterSampleType

pub record CounterSample : Type 0 where
  pub counter : ℕ
  pub timestamp : ℕ
  pub value : ℕ
  pub type_ : CounterSampleType

unfoldable pub counter_sample__init_uint64 : (counter timestamp value : ℕ) → CounterSample
counter_sample__init_uint64 counter timestamp value = record {
  counter = counter;
  timestamp = timestamp;
  value = value;
  type_ = CounterSampleType.uint64_sample;
}

-- The counter 0 is MaliGPUActiveCy.
unfoldable pub counter_sample__init : CounterSample
unfolding counter_sample__init_uint64
counter_sample__init = counter_sample__init_uint64 0 0 0

-- What `struct sampler` keeps of the values.
pub record Values : Type 0 where
  pub counter_to_buffer_pos_ : ℕ → Option ℕ
  pub counters_by_block_map_ : BlockType → List OffsetToBufferPos
  pub sample_buffer_ : List ℕ
  pub valid_sample_buffer_ : Bool
  pub last_collection_timestamp_ : ℕ
  pub sampling_in_progress_ : Bool

abbrev pub append_place :
    (BlockType → List OffsetToBufferPos)
    → BlockType
    → OffsetToBufferPos
    → BlockType
    → List OffsetToBufferPos
append_place m t p u = if type_number t == type_number u then m u ++ (p ∷ []) else m u

-- A counter of the hardware gets the next place in the buffer.
unfoldable pub add_place : RegisteredCounter → Values → Values
add_place rc v =
    let pos = length v.sample_buffer_ in
    elim rc.definition.tag [
      | hardware ↦ record v {
        counter_to_buffer_pos_ = update v.counter_to_buffer_pos_ rc.counter (some pos);
        sample_buffer_ = v.sample_buffer_ ++ (0 ∷ []);
        counters_by_block_map_ =
            append_place v.counters_by_block_map_ rc.definition.address.block_type (record {
              block_offset = rc.definition.address.offset;
              buffer_pos = pos;
              shift = rc.definition.address.shift;
            });
      }
      | _ ↦ v
    ]

unfoldable pub add_places : List SetNode → Values → Values
unfolding add_place
add_places [] v = v
add_places (n ∷ ns) v = add_places ns (add_place n.registered v)

unfoldable pub build_sample_buffer_mappings : Values → CounterSet → Values
unfolding add_places
build_sample_buffer_mappings v counters = add_places counters.head (record v {
  counter_to_buffer_pos_ = λ c. none;
  counters_by_block_map_ = λ t. [];
  sample_buffer_ = [];
})

-- `*sample += block_buffer[offset] << shift` for one place; a shift by 32 or more has no meaning, nor has
-- a place outside the buffer. `word` is what the counter memory holds at an address, of 32 bits.
unfoldable pub add_value :
    (word : ℕ → ℕ) → (values : ℕ) → OffsetToBufferPos → List ℕ → Option (List ℕ)
add_value word values m buffer = do
  old ← get_elem? buffer m.buffer_pos
  let w = u32 (word (u64 (values + 4 * m.block_offset)) * 2 ^ m.shift)
  if ltb m.shift 32 then some (set buffer m.buffer_pos (u64 (old + w))) else none

unfoldable pub add_values :
    (word : ℕ → ℕ) → (values : ℕ) → List OffsetToBufferPos → List ℕ → Option (List ℕ)
unfolding add_value
add_values word values [] buffer = some buffer
add_values word values (m ∷ ms) buffer = do
  buffer' ← add_value word values m buffer
  add_values word values ms buffer'

-- The body of the loop over the blocks. `memory` is where the counter memory stands: a place that is read
-- where none is mapped has no meaning.
unfoldable pub add_block :
    (word : ℕ → ℕ) → (memory : ℕ) → Values → BlockMetadata → List ℕ → Option (List ℕ)
unfolding add_values
add_block word memory v bm buffer =
    let places = v.counters_by_block_map_ bm.type_ in
    if memory == 0 && not (length places == 0)
    then none
    else add_values word bm.values places buffer

unfoldable pub fill_sample_buffer :
    (fuel : ℕ) → (word : ℕ → ℕ) → Reader → (buffer_idx : ℕ) → Values → Outcome Values
unfolding blocks_view__begin walk add_block
fill_sample_buffer fuel word r buffer_idx v =
    let bv = blocks_view__init r buffer_idx in
    elim (blocks_view__begin bv) [
      | none ↦ undefined
      | some it ↦
          walk fuel it (blocks_view__end bv) (add_block word r.memory_ v) v.sample_buffer_
          >=> λ buffer. finished (record v { sample_buffer_ = buffer })
    ]

unfoldable pub sampler__start_sampling :
    (clear : Bool) → (now : Option (ℕ × ℕ)) → Backend → Values → Option (Backend × Values)
unfolding backend__start
sampler__start_sampling clear now b v = do
  b' ← backend__start clear now 0 b
  some (b', record v { sampling_in_progress_ = true })

unfoldable pub sampler__stop_sampling : (dump : Bool) → Backend → Values → Option (Backend × Values)
unfolding backend__stop
sampler__stop_sampling dump b v = do
  b' ← backend__stop dump 0 b
  some (b', record v { sampling_in_progress_ = false })

-- `vector__update` with an `int` of 0: it writes the low half of the element, which has 8 bytes.
abbrev pub clear_low : ℕ → ℕ
clear_low old = old / two32 * two32

-- What the driver answers to a sample: the dump, the buffer's time stamp and number, and its return.
pub record SampleAnswers : Type 0 where
  pub dump : Bool
  pub taken : Option ℕ
  pub buffer_idx : ℕ
  pub put_back : Bool

-- What follows the request, once the sample is there. Its flags are 0, so that their message is never
-- printed.
unfoldable pub collect :
    (fuel : ℕ) → (word : ℕ → ℕ) → Reader → SampleAnswers → VinstrSample → Values → Outcome Values
unfolding fill_sample_buffer
collect fuel word r a sample v =
    fill_sample_buffer fuel word r a.buffer_idx (record v {
      last_collection_timestamp_ = sample.metadata_.timestamp_ns_begin;
      sample_buffer_ = map clear_low v.sample_buffer_;
    })
    >=> λ v'. if a.put_back then finished (record v' { valid_sample_buffer_ = true }) else exits

unfoldable pub sampler__sample_now :
    (fuel : ℕ)
    → (word : ℕ → ℕ) → Reader
    → SampleAnswers
    → Backend
    → Values
    → Outcome (Backend × Values)
unfolding backend__request_sample sample__init collect
sampler__sample_now fuel word r a b v =
    let asked : Outcome (Backend × Values) = elim (backend__request_sample a.dump 0 b) [
      | none ↦ exits
      | some b' ↦ elim (sample__init a.taken b') [
        | none ↦ exits
        | some sample ↦ collect fuel word r a sample v >=> λ v'. finished (b', v')
      ]
    ] in
    if v.sampling_in_progress_ then asked else exits

-- `vector__get` takes an `int`: the place is cut to one, and where it is negative or not in the buffer the
-- answer is the null pointer.
abbrev pub value_at : List ℕ → ℕ → Option ℕ
value_at buffer pos = if is_neg32 (u32 pos) then none else get_elem? buffer (u32 pos)

unfoldable pub sampler__get_counter_value : Values → ℕ → Outcome CounterSample
sampler__get_counter_value v counter =
    let known : Outcome CounterSample = elim (v.counter_to_buffer_pos_ counter) [
      | none ↦ exits
      | some index ↦ elim (value_at v.sample_buffer_ index) [
        | none ↦ undefined
        | some value ↦ finished (record {
          counter = counter;
          timestamp = v.last_collection_timestamp_;
          value = value;
          type_ = CounterSampleType.uint64_sample;
        })
      ]
    ] in
    if v.valid_sample_buffer_ then known else exits

-- A counter that the map does not have is a read through the null pointer.
unfoldable pub sampler__get_counter_value_with_sample : Values → ℕ → Outcome CounterSample
unfolding counter_sample__init_uint64
sampler__get_counter_value_with_sample v counter =
    let collected : Outcome CounterSample = elim (v.counter_to_buffer_pos_ counter) [
      | none ↦ undefined
      | some buffer_pos ↦ elim (value_at v.sample_buffer_ buffer_pos) [
        | none ↦ undefined
        | some value ↦
            finished (counter_sample__init_uint64 counter v.last_collection_timestamp_ value)
      ]
    ] in
    if v.valid_sample_buffer_ then collected else exits
