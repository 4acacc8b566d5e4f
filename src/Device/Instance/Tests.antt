-- ===== src/Device/Instance/Tests.antt =====
-- An instance made from a buffer of properties, and the theorems there.
use cl_mem_regulation.Common.{ℕ, ◌≡◌, refl, some, [], ◌∷◌, List, finished}
use cl_mem_regulation.Structures.Bitset.{bitset__init, bitset__set_bit, at_word, num_blocks}
use cl_mem_regulation.Counters.{Configuration, configuration__init, memory, primary}
use cl_mem_regulation.Device.Version.{jm_post_r21, kbase_version__init_with_args}
use cl_mem_regulation.Device.Properties.{
  no_constants, Locals, PropReader, prop_reader__init, start_locals, decode_loop, one_round,
  prop_decoder__next, take_property, prop_decoder__run, finish_constants, or_masks, le_read_bytes,
  le_bytes, read_value, prop_decoder__to_prop_metadata, prop_reader_le_read_bytes_uint8_t,
  prop_reader_le_read_bytes_uint32_t,
}
use cl_mem_regulation.Device.Extents.{
  BlockExtents, filter_block_extents, filter_types, block_extents__init, sample_values_uint32,
}
use cl_mem_regulation.Device.Instance.{
  Instance, Answers, backend_error, no_extents, instance__version_check, instance__init,
  instance__version_check_post_r21, is_version_set, instance__set_flags, instance__init_constants,
  instance__props_post_r21, instance__backend_type_probe, instance__backend_type_discover,
  backend_type_select, instance__init_block_extents,
}

abbrev blank : Instance
blank = record {
  constants_ = no_constants;
  block_extents_ = no_extents;
  kbase_version_ = record { major_ = 7; minor_ = 7; type_ = jm_post_r21 };
  backend_type_ = backend_error;
  fd_ = 0;
}

-- The properties say 2 slices, and no core group.
abbrev answers : Answers
answers = record {
  version_ret = 0;
  major = 11;
  minor = 20;
  flags_ret = 0;
  size_ret = 5;
  props_ret = 0;
  buffer = 60 ∷ 0 ∷ 0 ∷ 0 ∷ 2 ∷ [];
}

abbrev clean : PropReader → ℕ
clean r = 0

abbrev stack : Locals
stack = record {
  consts = no_constants;
  num_core_groups = 0;
  core_mask = [];
  raw_core_features_v = 0;
  raw_thread_features_v = 0;
}

made_run : (inst : Instance) × (instance__init clean stack 5 blank 3 answers ≡ finished inst)
unfolding instance__init instance__version_check instance__version_check_post_r21 is_version_set
    kbase_version__init_with_args instance__set_flags instance__init_constants
    instance__props_post_r21 prop_reader__init prop_decoder__run start_locals decode_loop one_round
    prop_decoder__next prop_reader_le_read_bytes_uint32_t le_read_bytes le_bytes
    prop_decoder__to_prop_metadata read_value prop_reader_le_read_bytes_uint8_t take_property
    finish_constants or_masks instance__backend_type_probe instance__backend_type_discover
    backend_type_select bitset__init bitset__set_bit at_word num_blocks instance__init_block_extents
made_run = (_, refl)

-- Blocks of each type; the counters of the memory alone are enabled, and behind them stands a 3.
abbrev extents : BlockExtents
extents = record {
  num_block_types = 4;
  num_blocks_of_type_ = 1 ∷ 1 ∷ 2 ∷ 6 ∷ [];
  counters_per_block_ = 64;
  values_type_ = sample_values_uint32;
}

abbrev memory_only : List Configuration
memory_only = configuration__init memory primary ∷ []

abbrev kept : BlockExtents
kept = record extents { num_blocks_of_type_ = 0 ∷ 0 ∷ 2 ∷ 0 ∷ [] }

kept_run : filter_block_extents extents memory_only 3 ≡ some kept
unfolding filter_block_extents filter_types block_extents__init configuration__init
kept_run = refl
