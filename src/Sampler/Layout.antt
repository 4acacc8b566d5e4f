-- ===== src/Sampler/Layout.antt =====
-- include/sample_layout.h: where the counter blocks of a sample stand. A failing `malloc` is left out;
-- a write behind the allocated entries has no meaning in C: `none`.
pub mod Packing
pub mod Disjoint
pub mod Counted
use cl_mem_regulation.Common.{
  ℕ, zero, suc, ◌+◌, ◌*◌, ◌==◌, ltb, if◌then◌else◌, Bool, true, false, not, Option, none, some,
  List, [], ◌∷◌, ◌++◌, get_or, u8, u64, ◌>>=◌,
}
use cl_mem_regulation.Counters.{BlockType, fe, tiler, memory, core}
use cl_mem_regulation.Structures.Bitset.{Bitset, bitset__get_bit}
use cl_mem_regulation.Device.Extents.{BlockExtents, type_number}

pub data SampleLayoutType : Type 0 where
  v4 non_v4 : SampleLayoutType

pub record Entry : Type 0 where
  pub type_ : BlockType
  pub index : ℕ
  pub offset : ℕ

-- `layout_` holds the entries that were written, of the `max_blocks` that were allocated.
pub record SampleLayout : Type 0 where
  pub max_blocks : ℕ
  pub counters_per_block : ℕ
  pub block_size : ℕ
  pub layout_ : List Entry
  pub num_blocks_ : ℕ
  pub sample_layout_type_ : SampleLayoutType

abbrev pub max_shader_cores : ℕ
max_shader_cores = 64

-- One front end, one tiler, 16 memory blocks and the cores; 64 counters of 4 bytes make a block.
unfoldable pub sample_layout__init : SampleLayoutType → SampleLayout
sample_layout__init type_ = record {
  max_blocks = 1 + 1 + 16 + max_shader_cores;
  counters_per_block = 64;
  block_size = 64 * 4;
  layout_ = [];
  num_blocks_ = 0;
  sample_layout_type_ = type_;
}

unfoldable pub sample_layout__push_back : SampleLayout → Entry → Option SampleLayout
sample_layout__push_back sl value =
    if ltb sl.num_blocks_ sl.max_blocks
    then some
        (record sl { layout_ = sl.layout_ ++ (value ∷ []); num_blocks_ = u64 (sl.num_blocks_ + 1) })
    else none

-- An entry is added when the extents have blocks of its type.
unfoldable pub push_if : BlockExtents → SampleLayout → Entry → Option SampleLayout
unfolding sample_layout__push_back
push_if extents sl value =
    if get_or extents.num_blocks_of_type_ (type_number value.type_) 0 == 0
    then some sl
    else sample_layout__push_back sl value

-- The loop over the memory blocks, with `n` to go from `i` on.
unfoldable pub push_memory : ℕ → (i offset_memory : ℕ) → SampleLayout → Option SampleLayout
unfolding sample_layout__push_back
push_memory zero i offset_memory sl = some sl
push_memory (suc n) i offset_memory sl = do
  sl' ← sample_layout__push_back sl (record {
    type_ = BlockType.memory;
    index = i;
    offset = u64 (offset_memory + i * sl.block_size);
  })
  push_memory n (i + 1) offset_memory sl'

-- The loop over the bits of the core mask; the cores that are there are counted by `sc_index`.
unfoldable pub push_cores :
    ℕ → (i sc_index offset_sc : ℕ) → Bitset → SampleLayout → Option SampleLayout
unfolding sample_layout__push_back bitset__get_bit
push_cores zero i sc_index offset_sc sc_mask sl = some sl
push_cores (suc n) i sc_index offset_sc sc_mask sl = do
  present ← bitset__get_bit sc_mask i
  let entry : Entry = record {
    type_ = BlockType.core;
    index = sc_index;
    offset = u64 (offset_sc + sl.block_size * i);
  }
  let skipped = push_cores n (i + 1) sc_index offset_sc sc_mask sl
  let pushed : Option SampleLayout = (do
    sl' ← sample_layout__push_back sl entry
    push_cores n (i + 1) (u8 (sc_index + 1)) offset_sc sc_mask sl')
  if present == 0 then skipped else pushed

unfoldable pub sample_layout_non_v4 : SampleLayout → BlockExtents → ℕ → Bitset → Option SampleLayout
unfolding push_if push_memory push_cores
sample_layout_non_v4 sl extents num_l2_slices sc_mask =
    let offset_tiler = sl.block_size in
    let offset_memory = offset_tiler + sl.block_size in
    let offset_sc = u64 (offset_memory + sl.block_size * num_l2_slices) in
    let has = λ (t : BlockType). not (get_or extents.num_blocks_of_type_ (type_number t) 0 == 0) in
    do
      sl1 ← push_if extents sl (record { type_ = BlockType.fe; index = 0; offset = 0 })
      sl2 ←
          push_if extents sl1 (record { type_ = BlockType.tiler; index = 0; offset = offset_tiler })
      sl3 ←
          (if has BlockType.memory
            then push_memory (u8 num_l2_slices) 0 offset_memory sl2
            else some sl2)
      if has BlockType.core
          then push_cores (u8 sc_mask.size) 0 0 offset_sc sc_mask sl3
          else some sl3

-- Nothing is put in a layout of version 4.
unfoldable pub sample_layout__init_with_args :
    BlockExtents → ℕ → Bitset → SampleLayoutType → Option SampleLayout
unfolding sample_layout__init sample_layout_non_v4
sample_layout__init_with_args extents num_l2_slices sc_mask v4 =
    some (sample_layout__init SampleLayoutType.v4)
sample_layout__init_with_args extents num_l2_slices sc_mask non_v4 =
    sample_layout_non_v4 (sample_layout__init SampleLayoutType.non_v4) extents num_l2_slices sc_mask
