-- ===== src/Sampler/Values/Reading.antt =====
-- include/sampler.h: the value that `sampler__get_counter_value` reads after `sampler__sample_now`.
use cl_mem_regulation.Common.{
  ℕ, zero, suc, ◌+◌, ◌<◌, ◌≤◌, ◌≡◌, refl, ap, ◌∙◌, ◌==◌, if◌then◌else◌, true, false, some, List, [],
  ◌∷◌, map, length, get_elem?-get_or, get_or, u32, u64, two31, is_neg32, finished, arith,
}
use cl_mem_regulation.Counters.{RegisteredCounter}
use cl_mem_regulation.Device.Extents.{type_number}
use cl_mem_regulation.Sampler.Layout.{Entry}
use cl_mem_regulation.Sampler.Backend.{Backend, VinstrSample, backend__request_sample, sample__init}
use cl_mem_regulation.Sampler.Blocks.{Reader}
use cl_mem_regulation.Sampler.Blocks.Walk.{block_of}
use cl_mem_regulation.Sampler.Values.{
  Values, uint64_sample, clear_low, SampleAnswers, collect, sampler__sample_now, value_at,
  sampler__get_counter_value,
}
use cl_mem_regulation.Sampler.Values.Sum.{Fits, IsReadable, reads, total, fill-total}
use cl_mem_regulation.Sampler.Values.Places.{AllIn, Placed, place_of}

-- The sum of a counter over the blocks of its type.
unfoldable pub counter_sum :
    (word : ℕ → ℕ) → Reader → (buffer_idx : ℕ) → RegisteredCounter → List Entry → ℕ
counter_sum word r b rc [] = 0
counter_sum word r b rc (e ∷ es) =
    (if type_number rc.definition.address.block_type == type_number e.type_
      then reads word (block_of r b e).values (place_of rc 0)
      else 0)
    + counter_sum word r b rc es

length-map : (xs : List ℕ) → length (map clear_low xs) ≡ length xs
length-map [] = refl
length-map (x ∷ xs) = ap suc (length-map xs)

get_or-map : (xs : List ℕ) (p : ℕ) → get_or (map clear_low xs) p 0 ≡ clear_low (get_or xs p 0)
get_or-map [] p = omega arith
get_or-map (x ∷ xs) zero = refl
get_or-map (x ∷ xs) (suc p) = get_or-map xs p

Fits-map : (xs : List ℕ) → Fits xs → Fits (map clear_low xs)
Fits-map xs h p = omega (arith, get_or-map xs p, h p)

-- The value of a counter whose place is `p`. What the place held above 32 bits stays: only the low half
-- is cleared.
abbrev pub value_after : (word : ℕ → ℕ) → Reader → ℕ → Values → RegisteredCounter → ℕ → ℕ
value_after word r b v rc p =
    u64 (clear_low (get_or v.sample_buffer_ p 0) + counter_sum word r b rc r.sample_layout_.layout_)

-- A place of the buffer is found below 2 ^ 31.
value_at-inside :
    (buffer : List ℕ) (p : ℕ)
    → p < length buffer
    → length buffer ≤ two31
    → value_at buffer p ≡ some (get_or buffer p 0)
value_at-inside buffer p lt short =
    let cut : u32 p ≡ p = omega arith in
    let small : is_neg32 p ≡ false = ground arith in
    rw (cut, small) (get_elem?-get_or buffer p 0 lt)

-- A sample changes what the buffer holds, its time and its validity, and the words still fit.
pub record Sampled (v v' : Values) : Type 0 where
  pub positions : v'.counter_to_buffer_pos_ ≡ v.counter_to_buffer_pos_
  pub places : v'.counters_by_block_map_ ≡ v.counters_by_block_map_
  pub size : length v'.sample_buffer_ ≡ length v.sample_buffer_
  pub words : Fits v'.sample_buffer_
  pub running : v'.sampling_in_progress_ ≡ v.sampling_in_progress_

abbrev pub ReadsAs : Values → (counter timestamp value : ℕ) → Type 0
ReadsAs v counter timestamp value =
    sampler__get_counter_value v counter
    ≡ finished
        (record { counter = counter; timestamp = timestamp; value = value; type_ = uint64_sample })

module _ (word : ℕ → ℕ) (r : Reader) (b : ℕ) (v : Values) (rc : RegisteredCounter) (p : ℕ)
    (placed : Placed v rc p) where
  total-counter_sum :
      (es : List Entry) → total word r b v.counters_by_block_map_ p es ≡ counter_sum word r b rc es
  unfolding total counter_sum
  total-counter_sum [] = refl
  total-counter_sum (e ∷ es) =
      omega (arith, placed.alone word (block_of r b e).values e.type_, total-counter_sum es)

  abbrev Reads : Values → ℕ → Type 0
  Reads v' begin = ReadsAs v' rc.counter begin (value_after word r b v rc p)

  -- A sample that is there is collected within as many rounds as there are blocks. The counter then
  -- reads its sum over the blocks, on top of what its place held above 32 bits.
  pub collect-Reads :
      (a : SampleAnswers) (sample : VinstrSample)
      → IsReadable r
      → AllIn v
      → Fits v.sample_buffer_
      → length v.sample_buffer_ ≤ two31
      → a.put_back ≡ true
      → a.buffer_idx ≡ b
      → (v' : Values) × (collect (length r.sample_layout_.layout_) word r a sample v ≡ finished v')
        × Reads v' sample.metadata_.timestamp_ns_begin
        × Sampled v v'
  unfolding collect sampler__get_counter_value
  collect-Reads a sample h all fits short put idx =
      let n = length-map v.sample_buffer_ in
      let start : Values = record v {
        last_collection_timestamp_ = sample.metadata_.timestamp_ns_begin;
        sample_buffer_ = map clear_low v.sample_buffer_;
      } in
      let (buffer, e, l, s) =
        fill-total word r b start h (λ t. rw n (all t)) (Fits-map v.sample_buffer_ fits) in
      let value : get_or buffer p 0 ≡ value_after word r b v rc p =
        s p
        ∙ ap u64 (
            ap (λ x. x + total word r b v.counters_by_block_map_ p r.sample_layout_.layout_)
              (get_or-map v.sample_buffer_ p)
            ∙ ap (λ x. clear_low (get_or v.sample_buffer_ p 0) + x)
                (total-counter_sum r.sample_layout_.layout_)) in
      (
        record start { sample_buffer_ = buffer; valid_sample_buffer_ = true },
        rw (idx, e, put) refl,
        rw
            (
              placed.found,
              value_at-inside buffer p (omega (arith, l, n, placed.inside))
                  (omega (arith, l, n, short)),
              value,
            )
            refl,
        record {
          positions = refl;
          places = refl;
          size = l ∙ n;
          words = λ q. omega (arith, s q);
          running = refl;
        },
      )

  -- When the layout counts its entries and its memory is mapped, sampling has started, every place lies in
  -- the buffer of at most 2 ^ 31 places, the counter has a place of its own, the words of the buffer fit, and
  -- the request, the taking and the putting back of the sample are answered, `sampler__sample_now` succeeds
  -- in a round for each block, and the counter then reads its sum over the blocks, above what the high half
  -- of its last value was. The places and the length of the buffer stay, and its words fit.
  pub sample_now-Reads :
      (a : SampleAnswers) (back back' : Backend) (sample : VinstrSample)
      → IsReadable r
      → AllIn v
      → Fits v.sample_buffer_
      → length v.sample_buffer_ ≤ two31
      → v.sampling_in_progress_ ≡ true
      → backend__request_sample a.dump 0 back ≡ some back'
      → sample__init a.taken back' ≡ some sample
      → a.put_back ≡ true
      → a.buffer_idx ≡ b
      → (v' : Values) × (sampler__sample_now (length r.sample_layout_.layout_) word r a back v
          ≡ finished (back', v'))
        × Reads v' sample.metadata_.timestamp_ns_begin
        × Sampled v v'
  unfolding sampler__sample_now
  sample_now-Reads a back back' sample h all fits short on asked taken put idx =
      let (v', e, q, kept) = collect-Reads a sample h all fits short put idx in
      (v', rw (on, asked, taken, e) refl, q, kept)
