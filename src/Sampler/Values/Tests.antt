-- ===== src/Sampler/Values/Tests.antt =====
-- A sample of two memory blocks, and the theorems there.
use cl_mem_regulation.Common.{
  ℕ, ◌+◌, ◌*◌, ◌<◌, ◌≤◌, ◌≡◌, refl, arith, some, Option, [], ◌∷◌, length, get_elem?, bit,
}
use cl_mem_regulation.Counters.{memory}
use cl_mem_regulation.Structures.Bitset.{Bitset}
use cl_mem_regulation.Structures.Bitset.Bits.{uint64_to_bitset-Holds}
use cl_mem_regulation.Device.Extents.{BlockExtents, sample_values_uint32}
use cl_mem_regulation.Sampler.Layout.{Entry, SampleLayout, non_v4, sample_layout__init_with_args}
use cl_mem_regulation.Sampler.Layout.Disjoint.{layout-disjoint}
use cl_mem_regulation.Sampler.Blocks.{
  Reader, BlockMetadata, BlockIterator, blocks_view__init, blocks_view__begin, blocks_view__end,
  walk,
}
use cl_mem_regulation.Sampler.Blocks.Walk.{IsCounted, each, outcome, walk-each}

-- The front end, the tiler and two slices have blocks.
abbrev extents : BlockExtents
extents = record {
  num_block_types = 4;
  num_blocks_of_type_ = 1 ∷ 1 ∷ 2 ∷ 0 ∷ [];
  counters_per_block_ = 64;
  values_type_ = sample_values_uint32;
}

-- Cores 0, 1 and 35.
abbrev cores : Bitset
cores = (uint64_to_bitset-Holds 0x8_0000_0003).0

layout-disjoint_example :
    (sl : SampleLayout) × (sample_layout__init_with_args extents 2 cores non_v4 ≡ some sl)
    × (sl.num_blocks_ ≡ length sl.layout_)
    × ((i j : ℕ) (a b : Entry)
        → i < j
        → get_elem? sl.layout_ i ≡ some a
        → get_elem? sl.layout_ j ≡ some b
        → (a.offset + 256 ≤ b.offset) × (b.offset + 256 ≤ (2 + 2 + 64) * 256))
layout-disjoint_example =
    let h = uint64_to_bitset-Holds 0x8_0000_0003 in
    layout-disjoint extents 2 cores (bit 0x8_0000_0003) (omega arith) h.2 h.3

-- The layout of the two slices.
abbrev slices : SampleLayout
slices = record {
  max_blocks = 82;
  counters_per_block = 64;
  block_size = 256;
  layout_ =
      record { type_ = memory; index = 0; offset = 512 }
      ∷ record { type_ = memory; index = 1; offset = 768 }
      ∷ [];
  num_blocks_ = 2;
  sample_layout_type_ = non_v4;
}

abbrev reader : Reader
reader = record { memory_ = 65536; buffer_size_ = 1024; sample_layout_ = slices }

reader-IsCounted : IsCounted reader
reader-IsCounted = record { counted = refl; fits = omega arith }

-- The body counts the blocks.
abbrev counting : BlockMetadata → ℕ → Option ℕ
counting m n = some (n + 1)

walk-each_example :
    (it : BlockIterator) × (blocks_view__begin (blocks_view__init reader 3) ≡ some it)
    × (walk
          (length reader.sample_layout_.layout_)
          it
          (blocks_view__end (blocks_view__init reader 3))
          counting
          0
        ≡ outcome (each reader 3 counting reader.sample_layout_.layout_ 0))
walk-each_example = walk-each reader 3 counting 0 reader-IsCounted
