-- ===== src/Sampler/Args.antt =====
-- What the back end of a sampler is made of: include/mapped_memory.h, include/hwcnt/features.h and
-- include/backend_args.h, with `init_features` of include/vinstr_setup.h.
use cl_mem_regulation.Common.{
  ℕ, ◌==◌, if◌then◌else◌, Bool, true, false, not, Option, none, some, [],
}
use cl_mem_regulation.Device.Extents.{BlockExtents}
use cl_mem_regulation.Device.Instance.{no_extents}
use cl_mem_regulation.Sampler.Layout.{SampleLayout, SampleLayoutType}

-- Where the memory of the counters stands; the null pointer is 0.
pub record MappedMemory : Type 0 where
  pub data_ : ℕ
  pub size_ : ℕ

abbrev pub no_memory : MappedMemory
no_memory = record { data_ = 0; size_ = 0 }

-- `mapped` is what `mmap` answers. Its failure leaves the null pointer, and is only reported.
unfoldable pub mapped_memory__init_with_fd : (mapped : Option ℕ) → ℕ → MappedMemory
mapped_memory__init_with_fd mapped size = elim mapped [
  | none ↦ no_memory
  | some address ↦ record { data_ = address; size_ = size }
]

unfoldable pub mapped_memory__init_with_data : (address size : ℕ) → MappedMemory
mapped_memory__init_with_data address size = record { data_ = address; size_ = size }

unfoldable pub mapped_memory__assign : (src : MappedMemory) → MappedMemory
mapped_memory__assign src = record { data_ = src.data_; size_ = src.size_ }

-- What is unmapped, if anything is.
unfoldable pub mapped_memory__delete : MappedMemory → Option MappedMemory
mapped_memory__delete mm = if mm.data_ == 0 then none else some mm

-- What `dest` and `src` are afterwards.
unfoldable pub mapped_memory__move : (src : MappedMemory) → MappedMemory × MappedMemory
mapped_memory__move src = (src, no_memory)

pub record Features : Type 0 where
  pub has_gpu_cycle : Bool
  pub has_block_state : Bool
  pub has_stretched_flag : Bool
  pub overflow_behavior_defined : Bool

unfoldable pub init_features : (reader_features : ℕ) → Features
init_features reader_features = record {
  has_gpu_cycle = not (reader_features == 0);
  has_block_state = false;
  has_stretched_flag = false;
  overflow_behavior_defined = true;
}

pub record BackendArgs : Type 0 where
  pub fd : ℕ
  pub period_us : ℕ
  pub features_v : Features
  pub extents : BlockExtents
  pub memory_ : MappedMemory

pub record VinstrBackendArgs : Type 0 where
  pub base_args : BackendArgs
  pub features : ℕ
  pub buffer_size : ℕ
  pub sample_layout_v : SampleLayout
  pub max_buffer_count : ℕ

abbrev no_layout : SampleLayout
no_layout = record {
  max_blocks = 0;
  counters_per_block = 0;
  block_size = 0;
  layout_ = [];
  num_blocks_ = 0;
  sample_layout_type_ = SampleLayoutType.v4;
}

unfoldable pub vinstr_backend_args__init : VinstrBackendArgs
vinstr_backend_args__init = record {
  base_args = record {
    fd = 0;
    period_us = 0;
    features_v = record {
      has_gpu_cycle = false;
      has_block_state = false;
      has_stretched_flag = false;
      overflow_behavior_defined = false;
    };
    extents = no_extents;
    memory_ = no_memory;
  };
  features = 0;
  buffer_size = 0;
  sample_layout_v = no_layout;
  max_buffer_count = 32;
}
