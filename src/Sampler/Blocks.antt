-- ===== src/Sampler/Blocks.antt =====
-- The blocks of a sample: `vinstr_backend__next` of include/backend.h, the iterator of
-- include/hwcnt/block_iterator.h, the view of include/hwcnt/blocks_view.h and the handles of
-- include/hwcnt/detail/handle.h, which hold the number of a buffer and that of a block.
pub mod Walk
use cl_mem_regulation.Common.{
  ℕ, zero, suc, ◌+◌, ◌*◌, ◌==◌, if◌then◌else◌, Bool, true, false, ◌&&◌, Option, none, some, List,
  get_elem?, u64, ◌>>=◌, Outcome, finished, undefined, out_of_fuel,
}
use cl_mem_regulation.Counters.{BlockType, fe, PrfcntSet}
use cl_mem_regulation.Sampler.Layout.{Entry, SampleLayout}

-- What the walk over the blocks reads of `struct vinstr_backend`: the place of the counter memory, the
-- size of a buffer in it, and the layout.
pub record Reader : Type 0 where
  pub memory_ : ℕ
  pub buffer_size_ : ℕ
  pub sample_layout_ : SampleLayout

-- `values` is an address. The state of the block is not set.
pub record BlockMetadata : Type 0 where
  pub type_ : BlockType
  pub index : ℕ
  pub set_ : PrfcntSet
  pub values : ℕ

pub data Next : Type 0 where
  last_block : Next
  next_block : BlockMetadata → (block_index : ℕ) → Next

-- `none` when the entry was not written.
unfoldable pub backend__next : Reader → (buffer_idx block_index : ℕ) → Option Next
backend__next b buffer_idx block_index =
    let found : Option Next = (do
      e ← get_elem? b.sample_layout_.layout_ block_index
      some (
          Next.next_block
            (record {
              type_ = e.type_;
              index = e.index;
              set_ = PrfcntSet.primary;
              values = u64 (b.memory_ + b.buffer_size_ * buffer_idx + e.offset);
            })
            (u64 (block_index + 1)))) in
    if block_index == b.sample_layout_.num_blocks_ then some Next.last_block else found

-- `reader_` is the null pointer behind the last block.
pub record BlockIterator : Type 0 where
  pub reader_ : Option Reader
  pub sample_hndl_ : ℕ
  pub block_hndl_ : ℕ
  pub metadata_ : BlockMetadata

abbrev pub no_metadata : BlockMetadata
no_metadata = record { type_ = BlockType.fe; index = 0; set_ = PrfcntSet.primary; values = 0 }

unfoldable pub block_iterator__init : BlockIterator
block_iterator__init = record {
  reader_ = none;
  sample_hndl_ = 0;
  block_hndl_ = 0;
  metadata_ = no_metadata;
}

-- The iterator after a call of `vinstr_backend__next` by the reader `r`.
unfoldable pub advance : Reader → BlockIterator → Option BlockIterator
unfolding backend__next
advance r it = do
  n ← backend__next r it.sample_hndl_ it.block_hndl_
  some (elim n [
    | last_block ↦ record it { reader_ = none }
    | next_block m i ↦ record it { reader_ = some r; metadata_ = m; block_hndl_ = i }
  ])

unfoldable pub block_iterator__init_with_args : Reader → ℕ → Option BlockIterator
unfolding advance block_iterator__init
block_iterator__init_with_args r sample_hndl =
    advance r (record block_iterator__init { reader_ = some r; sample_hndl_ = sample_hndl })

-- `none` for the program's end, too, when there is no reader.
unfoldable pub block_iterator__increment : BlockIterator → Option BlockIterator
unfolding advance
block_iterator__increment it = do r ← it.reader_; advance r it

-- Two readers that are there are those of the one back end.
unfoldable pub block_iterator__equals : BlockIterator → BlockIterator → Bool
block_iterator__equals lhs rhs = elim lhs.reader_ [
  | none ↦ elim rhs.reader_ [ none ↦ true | some r ↦ false ]
  | some l ↦ elim rhs.reader_ [
    | none ↦ false
    | some r ↦ lhs.sample_hndl_ == rhs.sample_hndl_ && lhs.block_hndl_ == rhs.block_hndl_
  ]
]

pub record BlocksView : Type 0 where
  pub reader_ : Reader
  pub sample_hndl_ : ℕ

unfoldable pub blocks_view__init : Reader → ℕ → BlocksView
blocks_view__init r sample_hndl = record { reader_ = r; sample_hndl_ = sample_hndl }

unfoldable pub blocks_view__begin : BlocksView → Option BlockIterator
unfolding block_iterator__init_with_args
blocks_view__begin bv = block_iterator__init_with_args bv.reader_ bv.sample_hndl_

unfoldable pub blocks_view__end : BlocksView → BlockIterator
unfolding block_iterator__init
blocks_view__end bv = block_iterator__init

-- `while (!equals(it, end)) { body; increment; }`, with `fuel` rounds at most.
unfoldable pub walk {ℓ} :
    {S : Type ℓ}
    → ℕ
    → BlockIterator
    → BlockIterator
    → (BlockMetadata → S → Option S)
    → S
    → Outcome S
unfolding block_iterator__equals block_iterator__increment
walk zero it end body s = if block_iterator__equals it end then finished s else out_of_fuel
walk {S = S} (suc fuel) it end body s =
    let next : Outcome S = elim (body it.metadata_ s) [
      | none ↦ undefined
      | some s' ↦ elim (block_iterator__increment it) [
        | none ↦ undefined
        | some it' ↦ walk fuel it' end body s'
      ]
    ] in
    if block_iterator__equals it end then finished s else next
