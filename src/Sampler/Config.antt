-- ===== src/Sampler/Config.antt =====
-- The configuration of a sampler in include/sampler.h, with `configuration_vector_to_array` of
-- include/tools.h, and the masks of include/convert.h. A vector is the list of its elements, and a map
-- a function from its keys; `none` where an access has no meaning, or the program exits.
use cl_mem_regulation.Common.{
  ℕ, zero, suc, ◌+◌, ◌-◌, ◌*◌, ◌/◌, ◌%◌, ◌^◌, ◌==◌, ltb, if◌then◌else◌, Option, none, some, List,
  [], ◌∷◌, get_elem?, get_or, set, bit_and, bit_or, two32, ◌>>=◌,
}
use cl_mem_regulation.Counters.{
  BlockType, fe, tiler, memory, core, CounterType, CounterDefinition, RegisteredCounter, PrfcntSet,
  primary, Configuration, configuration__init,
}
use cl_mem_regulation.Structures.Bitset.{Bitset, num_blocks, bitset__set_bit, bitset__any}
use cl_mem_regulation.Structures.Set.{
  CounterSet, set__init, set_contains_counter, set__insert_registered_counter,
}
use cl_mem_regulation.Device.Instance.{Gpu, gpu__get_product_id}
use cl_mem_regulation.Device.Extents.{type_number}

-- The counters of the external bus, by their numbers in `enum hwcpipe_counter`.
abbrev pub mali_ext_bus_wr_bt : ℕ
mali_ext_bus_wr_bt = 11

abbrev pub mali_ext_bus_rd_bt : ℕ
mali_ext_bus_rd_bt = 12

abbrev pub mali_ext_bus_rd : ℕ
mali_ext_bus_rd = 171

abbrev pub mali_ext_bus_wr : ℕ
mali_ext_bus_wr = 182

-- The keys of `backend_config_` are the block types.
pub record SamplerConfig : Type 0 where
  pub gpu_id_ : ℕ
  pub device_number_ : ℕ
  pub counters_ : CounterSet
  pub backend_config_ : BlockType → Configuration

-- The id is not stored: `gpu_id_` stays 0.
unfoldable pub sampler_config__init_with_args : (gpu_id device_number : ℕ) → SamplerConfig
unfolding set__init configuration__init
sampler_config__init_with_args gpu_id device_number = record {
  gpu_id_ = 0;
  device_number_ = device_number;
  counters_ = set__init;
  backend_config_ = λ t. configuration__init t PrfcntSet.primary;
}

unfoldable pub sampler_config__init : Gpu → SamplerConfig
unfolding gpu__get_product_id sampler_config__init_with_args
sampler_config__init gpu =
    sampler_config__init_with_args (gpu__get_product_id gpu).product_id_ gpu.device_number_

abbrev hardware_at : ℕ → CounterDefinition
hardware_at offset = record {
  address = record { offset = offset; shift = 0; block_type = BlockType.memory };
  tag = CounterType.hardware;
}

-- Any other counter has a definition of zeros.
unfoldable pub definition_of : ℕ → CounterDefinition
definition_of counter =
    if counter == mali_ext_bus_rd
    then hardware_at 29
    else if counter == mali_ext_bus_wr
    then hardware_at 42
    else if counter == mali_ext_bus_rd_bt
    then hardware_at 32
    else if counter == mali_ext_bus_wr_bt
    then hardware_at 47
    else record {
      address = record { offset = 0; shift = 0; block_type = BlockType.fe };
      tag = CounterType.invalid;
    }

-- The map with the configuration of one type replaced.
abbrev pub put_config :
    (BlockType → Configuration) → BlockType → Configuration → BlockType → Configuration
put_config m t c u = if type_number t == type_number u then c else m u

-- `new_data` is the address of the set's copy of the counter.
unfoldable pub sampler_config__add_counter :
    (new_data : ℕ) → SamplerConfig → ℕ → Option SamplerConfig
unfolding set_contains_counter definition_of set__insert_registered_counter bitset__set_bit
sampler_config__add_counter new_data sc counter =
    let definition = definition_of counter in
    let t = definition.address.block_type in
    let config = sc.backend_config_ t in
    let rc : RegisteredCounter = record { counter = counter; definition = definition } in
    let added : Option SamplerConfig = (do
      enable_map ← bitset__set_bit config.enable_map definition.address.offset
      some (record sc {
        counters_ = set__insert_registered_counter new_data sc.counters_ rc;
        backend_config_ =
            put_config sc.backend_config_ t (record config { enable_map = enable_map });
      })) in
    if set_contains_counter sc.counters_ counter then some sc else added

-- The loop over the nodes of the map, in the order of its buckets.
unfoldable pub sampler_config__build_backend_config_list :
    (order : List BlockType) → SamplerConfig → Option (List Configuration)
unfolding bitset__any
sampler_config__build_backend_config_list [] sc = some []
sampler_config__build_backend_config_list (t ∷ ts) sc = do
  enabled ← bitset__any (sc.backend_config_ t).enable_map
  rest ← sampler_config__build_backend_config_list ts sc
  some (if enabled then sc.backend_config_ t ∷ rest else rest)

-- One word of the mask in the loop of `convert_by_mask`; the words behind it have not been shifted.
unfoldable pub shift_words : ℕ → (i blocks : ℕ) → List ℕ → List ℕ
shift_words zero i blocks ws = ws
shift_words (suc n) i blocks ws =
    let w = get_or ws i 0 / 2 ^ 15 in
    let carry = get_or ws (i + 1) 0 * 2 ^ 17 % two32 in
    let next = if ltb (i + 1) blocks then bit_or w carry else w in
    shift_words n (i + 1) blocks (set ws i next)

-- `while (remaining_size > 0)` takes 7 off the size in each round, so `size` rounds are enough. A shift
-- of `1U` by 32 or more has no meaning.
unfoldable pub mask_loop : ℕ → (remaining_size idx result : ℕ) → Bitset → Option (ℕ × Bitset)
unfolding shift_words num_blocks
mask_loop zero remaining_size idx result mask = some (result, mask)
mask_loop (suc fuel) remaining_size idx result mask =
    let blocks = num_blocks mask.size in
    let shifted = record mask { bits = shift_words blocks 0 blocks mask.bits } in
    let next = λ (r : ℕ). mask_loop fuel (remaining_size - 7) (idx + 1) r shifted in
    let round : Option (ℕ × Bitset) = (do
      w ← get_elem? mask.bits 0
      if bit_and w 15 == 0
          then next result
          else if ltb idx 32
          then next (bit_or result (2 ^ idx))
          else none) in
    if remaining_size == 0 then some (result, mask) else round

-- The enabled groups, and the mask, which the loop changes.
unfoldable pub convert_by_mask : Bitset → Option (ℕ × Bitset)
unfolding mask_loop
convert_by_mask mask = mask_loop mask.size mask.size 0 0 mask

-- include/kbase_types.h
pub record HwcntReaderSetup : Type 0 where
  pub buffer_count : ℕ
  pub fe_bm : ℕ
  pub shader_bm : ℕ
  pub tiler_bm : ℕ
  pub mmu_l2_bm : ℕ

unfoldable pub convert : HwcntReaderSetup → List Configuration → Option HwcntReaderSetup
unfolding convert_by_mask
convert result [] = some result
convert result (it ∷ rest) = elim it.set_ [
  | primary ↦ do
    result' ← (elim it.type_ [
      | fe ↦ do
        (m, mask) ← convert_by_mask it.enable_map
        some (record result { fe_bm = bit_or result.fe_bm m })
      | tiler ↦ do
        (m, mask) ← convert_by_mask it.enable_map
        some (record result { tiler_bm = bit_or result.tiler_bm m })
      | memory ↦ some (record result { mmu_l2_bm = 2304 })
      | core ↦ do
        (m, mask) ← convert_by_mask it.enable_map
        some (record result { shader_bm = bit_or result.shader_bm m })
    ])
    convert result' rest
  | _ ↦ none
]
