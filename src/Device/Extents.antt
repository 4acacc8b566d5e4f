-- ===== src/Device/Extents.antt =====
-- The counts of counter blocks: include/hwcnt/block_extents.h, include/construct_block_extents.h,
-- include/filter_block_extents.h, and `is_v4_layout` of include/sample_layout.h.
pub mod Filter
use cl_mem_regulation.Common.{
  ℕ, zero, suc, ◌+◌, ◌==◌, ltb, if◌then◌else◌, Bool, true, false, Option, none, some, List, [], ◌∷◌,
  get_or, set, replicate, u8,
}
use cl_mem_regulation.Counters.{BlockType, fe, tiler, memory, core, Configuration}
use cl_mem_regulation.Device.ProductId.{
  ProductId, legacy_t60x, legacy_txxx, product_id__init_with_raw_product_id,
  product_id__get_version_style,
}

pub data SampleValuesType : Type 0 where
  sample_values_uint32 sample_values_uint64 : SampleValuesType

pub record BlockExtents : Type 0 where
  pub num_block_types : ℕ
  pub num_blocks_of_type_ : List ℕ
  pub counters_per_block_ : ℕ
  pub values_type_ : SampleValuesType

-- The number of a block type.
abbrev pub type_number : BlockType → ℕ
type_number fe = 0
type_number tiler = 1
type_number memory = 2
type_number core = 3

unfoldable pub block_extents__init : BlockExtents
block_extents__init = record {
  num_block_types = 4;
  num_blocks_of_type_ = replicate 4 0;
  counters_per_block_ = 0;
  values_type_ = SampleValuesType.sample_values_uint32;
}

-- The loop copies the four counts.
unfoldable pub copy_counts : ℕ → ℕ → (from to : List ℕ) → List ℕ
copy_counts zero i from to = to
copy_counts (suc n) i from to = copy_counts n (i + 1) from (set to i (get_or from i 0))

unfoldable pub block_extents__init_with_args : List ℕ → ℕ → SampleValuesType → BlockExtents
unfolding copy_counts
block_extents__init_with_args num_blocks_of_type_v counters_per_block values_type = record {
  num_block_types = 4;
  num_blocks_of_type_ = copy_counts 4 0 num_blocks_of_type_v (replicate 4 0);
  counters_per_block_ = counters_per_block;
  values_type_ = values_type;
}

unfoldable pub sum_from : ℕ → ℕ → List ℕ → ℕ → ℕ
sum_from zero i xs result = result
sum_from (suc n) i xs result = sum_from n (i + 1) xs (u8 (result + get_or xs i 0))

-- `result` is not set before the loop: `garbage` is what its memory holds.
unfoldable pub block_extents__num_blocks : (garbage : ℕ) → BlockExtents → ℕ
unfolding sum_from
block_extents__num_blocks garbage extents =
    sum_from extents.num_block_types 0 extents.num_blocks_of_type_ (u8 garbage)

unfoldable pub is_v4_layout : ProductId → Bool
unfolding product_id__get_version_style product_id__init_with_raw_product_id
is_v4_layout id = elim (product_id__get_version_style id id.product_id_) [
  | legacy_t60x ↦ true
  | legacy_txxx ↦ ltb id.product_id_ (product_id__init_with_raw_product_id 0x0760).product_id_
  | _ ↦ false
]

unfoldable pub construct_block_extents : ProductId → ℕ → ℕ → BlockExtents
unfolding is_v4_layout block_extents__init_with_args
construct_block_extents pid num_l2_slices num_shader_cores =
    let num_memory_blocks = if is_v4_layout pid then 1 else u8 num_l2_slices in
    block_extents__init_with_args (1 ∷ 1 ∷ num_memory_blocks ∷ u8 num_shader_cores ∷ []) 64
      SampleValuesType.sample_values_uint32

-- The loop over the configurations.
unfoldable pub filter_types : (input output : List ℕ) → List Configuration → List ℕ
filter_types input output [] = output
filter_types input output (c ∷ cs) =
    let i = type_number c.type_ in filter_types input (set output i (get_or input i 0)) cs

-- `end->type` lies behind the configurations: `end_type` is what its memory holds. `none` when the
-- program exits. Without a configuration, `begin` is `end`.
unfoldable pub filter_block_extents :
    BlockExtents → List Configuration → (end_type : ℕ) → Option BlockExtents
unfolding block_extents__init filter_types
filter_block_extents input configs end_type =
    let filtered = record block_extents__init {
      num_blocks_of_type_ =
          filter_types input.num_blocks_of_type_ block_extents__init.num_blocks_of_type_ configs;
      counters_per_block_ = input.counters_per_block_;
      values_type_ = input.values_type_;
    } in
    elim configs [
      | [] ↦ some filtered
      | c ∷ cs ↦ if ltb end_type (type_number c.type_) then none else some filtered
    ]
