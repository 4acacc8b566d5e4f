-- ===== src/Sampler/Setup.antt =====
-- The set-up of a sampler: include/vinstr_setup.h, the construction of the back end in include/backend.h,
-- and `sampler__init` of include/sampler.h. What `ioctl`, `open` and `mmap` answer is an argument: an
-- `int`, negative when the call fails.
pub mod Started
use cl_mem_regulation.Common.{
  ℕ, ◌*◌, ◌==◌, ltb, if◌then◌else◌, Bool, true, false, not, Option, none, some, List, [], ◌∷◌, u64,
  is_neg32, minus_one32, Outcome, finished, undefined, exits, ◌>=>◌, defined, or_exit,
}
use cl_mem_regulation.Counters.{BlockType, fe, tiler, memory, core, Configuration}
use cl_mem_regulation.Structures.Bitset.{uint64_to_bitset}
use cl_mem_regulation.Device.ProductId.{product_id__from_raw_gpu_id}
use cl_mem_regulation.Device.Version.{IoctlIfaceType, jm_pre_r21}
use cl_mem_regulation.Device.Properties.{Locals, PropReader}
use cl_mem_regulation.Device.Extents.{
  BlockExtents, block_extents__init_with_args, filter_block_extents, is_v4_layout,
}
use cl_mem_regulation.Device.Instance.{
  Instance, Answers, no_extents, handle__create, instance__init,
}
use cl_mem_regulation.Sampler.Args.{
  mapped_memory__init_with_fd, mapped_memory__move, init_features, VinstrBackendArgs,
  vinstr_backend_args__init,
}
use cl_mem_regulation.Sampler.Layout.{
  SampleLayout, SampleLayoutType, v4, non_v4, sample_layout__init_with_args,
}
use cl_mem_regulation.Sampler.Blocks.{Reader}
use cl_mem_regulation.Sampler.Config.{
  SamplerConfig, HwcntReaderSetup, convert, sampler_config__build_backend_config_list,
}
use cl_mem_regulation.Sampler.Backend.{Backend, backend__init}
use cl_mem_regulation.Sampler.Values.{Values, build_sample_buffer_mappings}

-- What the set-up of the reader meets: the descriptor that KBASE_HWCNT_READER_SETUP returns, the
-- features with the API version, the size of a buffer, the mapping, the memory of the queue, and the
-- type that stands behind the configurations.
pub record ReaderAnswers : Type 0 where
  pub setup_ret : ℕ
  pub version_ret : ℕ
  pub features : ℕ
  pub size_ret : ℕ
  pub buffer_size : ℕ
  pub mapped : Option ℕ
  pub queue : List ℕ
  pub end_type : ℕ

-- The new `*vinstr_fd`. A driver from before r21 is not asked.
unfoldable pub vinstr_reader_setup : (vinstr_fd : ℕ) → Instance → (setup_ret : ℕ) → Outcome ℕ
vinstr_reader_setup vinstr_fd inst setup_ret = elim inst.kbase_version_.type_ [
  | jm_pre_r21 ↦ finished vinstr_fd
  | _ ↦ if is_neg32 setup_ret then exits else if setup_ret == 12 then exits else finished setup_ret
]

abbrev pub no_setup : (buffer_count : ℕ) → HwcntReaderSetup
no_setup buffer_count = record {
  buffer_count = buffer_count;
  fe_bm = 0;
  shader_bm = 0;
  tiler_bm = 0;
  mmu_l2_bm = 0;
}

-- The loop over the buffer counts, which ends after its first round whatever the driver answers: the
-- descriptor, which is negative only when the driver was not asked.
unfoldable pub open_reader : Instance → (buffer_count setup_ret : ℕ) → Outcome ℕ
unfolding vinstr_reader_setup
open_reader inst buffer_count setup_ret =
    (if ltb 1 buffer_count
      then vinstr_reader_setup minus_one32 inst setup_ret
      else finished minus_one32)
    >=> λ vinstr_fd. if is_neg32 vinstr_fd then exits else finished vinstr_fd

abbrev pub layout_type : Instance → SampleLayoutType
layout_type inst =
    if is_v4_layout (product_id__from_raw_gpu_id inst.constants_.gpu_id)
    then SampleLayoutType.v4
    else SampleLayoutType.non_v4

-- The masks of `convert` go to the driver.
unfoldable pub vinstr_setup :
    Instance → (period_ns : ℕ) → List Configuration → ReaderAnswers → Outcome VinstrBackendArgs
unfolding vinstr_backend_args__init filter_block_extents convert open_reader
    mapped_memory__init_with_fd mapped_memory__move uint64_to_bitset sample_layout__init_with_args
    init_features block_extents__init_with_args
vinstr_setup inst period_ns configs a =
    let result = vinstr_backend_args__init in
    let c = inst.constants_ in
    or_exit (filter_block_extents inst.block_extents_ configs a.end_type) >=> λ extents.
    defined (convert (no_setup 0) configs) >=> λ masks.
    open_reader inst result.max_buffer_count a.setup_ret >=> λ vinstr_fd.
    (if is_neg32 a.version_ret
      then exits
      else if is_neg32 a.size_ret
      then exits
      else defined (uint64_to_bitset c.shader_core_mask) >=> λ shader_core_mask.
          defined (
            sample_layout__init_with_args extents c.num_l2_slices shader_core_mask
              (layout_type inst))
          >=> λ sample_layout. finished (record result {
            base_args = record {
              fd = vinstr_fd;
              period_us = period_ns;
              features_v = init_features a.features;
              extents =
                  block_extents__init_with_args extents.num_blocks_of_type_
                    extents.counters_per_block_ extents.values_type_;
              memory_ =
                  (mapped_memory__move (
                    mapped_memory__init_with_fd a.mapped
                      (u64 (a.buffer_size * result.max_buffer_count)))).0;
            };
            features = a.features;
            buffer_size = a.buffer_size;
            sample_layout_v = sample_layout;
          }))

-- `vinstr_backend__create`: a null pointer is never passed.
unfoldable pub vinstr_backend__create :
    Instance → (period_ns : ℕ) → List Configuration → ReaderAnswers → Outcome VinstrBackendArgs
unfolding vinstr_setup
vinstr_backend__create = vinstr_setup

-- `struct vinstr_backend` in the two parts of it that are used: its queues, and its blocks.
unfoldable pub vinstr_backend__init : (queue : List ℕ) → VinstrBackendArgs → Backend × Reader
unfolding backend__init mapped_memory__move
vinstr_backend__init queue args = (
  backend__init queue args.base_args.period_us args.features args.max_buffer_count,
  record {
    memory_ = (mapped_memory__move args.base_args.memory_).0.data_;
    buffer_size_ = args.buffer_size;
    sample_layout_ = args.sample_layout_v;
  },
)

unfoldable pub vinstr_backend__init_with_args :
    Instance → List Configuration → ReaderAnswers → Outcome (Backend × Reader)
unfolding vinstr_backend__create vinstr_backend__init
vinstr_backend__init_with_args inst configs a =
    vinstr_backend__create inst 0 configs a >=> λ args. finished (vinstr_backend__init a.queue args)

-- The order in which `backend_config_` has its nodes: each type is in the bucket of its number.
abbrev pub bucket_order : List BlockType
bucket_order = BlockType.fe ∷ BlockType.tiler ∷ BlockType.memory ∷ BlockType.core ∷ []

-- The parts of `struct sampler`.
pub record Sampler : Type 0 where
  pub instance_ : Instance
  pub backend : Backend
  pub reader : Reader
  pub values : Values

abbrev pub no_values : Values
no_values = record {
  counter_to_buffer_pos_ = λ c. none;
  counters_by_block_map_ = λ t. [];
  sample_buffer_ = [];
  valid_sample_buffer_ = false;
  last_collection_timestamp_ = 0;
  sampling_in_progress_ = false;
}

-- The descriptor of the handle. A device that cannot be opened goes unnoticed, and leaves 0.
abbrev pub handle_fd : (opened : ℕ) → ℕ
unfolding handle__create
handle_fd opened = elim (handle__create opened) [ none ↦ 0 | some fd ↦ fd ]

module _ (garbage : PropReader → ℕ) (stack : Locals) (fuel : ℕ) where
  unfoldable pub sampler__init :
      (heap : Instance) (opened : ℕ) → Answers → ReaderAnswers → SamplerConfig → Outcome Sampler
  unfolding handle__create instance__init build_sample_buffer_mappings
      sampler_config__build_backend_config_list vinstr_backend__init_with_args
  sampler__init heap opened a ra config =
      instance__init garbage stack fuel heap (handle_fd opened) a >=> λ inst.
      let values = build_sample_buffer_mappings no_values config.counters_ in
      defined (sampler_config__build_backend_config_list bucket_order config) >=> λ configs.
      vinstr_backend__init_with_args inst configs ra >=> λ made.
      finished (record { instance_ = inst; backend = made.0; reader = made.1; values = values })
