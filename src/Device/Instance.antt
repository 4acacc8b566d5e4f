-- ===== src/Device/Instance.antt =====
-- include/instance.h: an instance of the GPU, and the `gpu` of include/gpu.h with the handle of
-- include/handle.h. What an `ioctl` or `open` answers is an argument: an `int`, negative when it fails.
pub mod Setup
mod Tests
use cl_mem_regulation.Common.{
  ℕ, ◌+◌, ◌==◌, if◌then◌else◌, Bool, true, false, not, ◌||◌, Option, none, some, List, [], ◌++◌,
  take, replicate, u32, is_neg32, minus_one32, ◌>>=◌, Outcome, finished, undefined, out_of_fuel,
  exits, ◌>=>◌,
}
use cl_mem_regulation.Structures.Bitset.{Bitset, bitset__init, bitset__set_bit}
use cl_mem_regulation.Device.ProductId.{ProductId, product_id__init, product_id__from_raw_gpu_id}
use cl_mem_regulation.Device.Version.{
  IoctlIfaceType, jm_pre_r21, jm_post_r21, csf, KbaseVersion, kbase_version__init_with_args,
}
use cl_mem_regulation.Device.Properties.{
  Constants, no_constants, Locals, PropReader, prop_reader__init, prop_decoder__run,
}
use cl_mem_regulation.Device.Extents.{BlockExtents, construct_block_extents, sample_values_uint32}

pub data BackendType : Type 0 where
  vinstr vinstr_pre_r21 kinstr_prfcnt kinstr_prfcnt_wa kinstr_prfcnt_bad backend_error : BackendType

-- The number of a type: its bit.
abbrev pub backend_number : BackendType → ℕ
backend_number vinstr = 0
backend_number vinstr_pre_r21 = 1
backend_number kinstr_prfcnt = 2
backend_number kinstr_prfcnt_wa = 3
backend_number kinstr_prfcnt_bad = 4
backend_number backend_error = 5

-- `valid_` is not used.
pub record Instance : Type 0 where
  pub constants_ : Constants
  pub block_extents_ : BlockExtents
  pub kbase_version_ : KbaseVersion
  pub backend_type_ : BackendType
  pub fd_ : ℕ

-- What the driver answers: the version, the flags, and the properties in two calls.
pub record Answers : Type 0 where
  pub version_ret : ℕ
  pub major : ℕ
  pub minor : ℕ
  pub flags_ret : ℕ
  pub size_ret : ℕ
  pub props_ret : ℕ
  pub buffer : List ℕ

unfoldable pub is_version_set : (major minor : ℕ) → Bool
is_version_set major minor = not (major == 0) || not (minor == 0)

-- The result of the function, and the instance. The driver is not asked for `csf`.
unfoldable pub instance__version_check_post_r21 : Instance → IoctlIfaceType → Answers → ℕ × Instance
unfolding is_version_set kbase_version__init_with_args
instance__version_check_post_r21 inst csf a = (minus_one32, inst)
instance__version_check_post_r21 inst iface_type a =
    if is_neg32 a.version_ret
    then (minus_one32, inst)
    else if not (is_version_set a.major a.minor)
    then (minus_one32, inst)
    else (
      0,
      record inst { kbase_version_ = kbase_version__init_with_args a.major a.minor iface_type },
    )

-- Both branches return 0.
unfoldable pub instance__version_check : Instance → Answers → ℕ × Instance
unfolding instance__version_check_post_r21
instance__version_check inst a =
    let (ret, inst') = instance__version_check_post_r21 inst IoctlIfaceType.jm_post_r21 a in
    if ret == 0 then (0, inst') else (0, inst')

-- A driver from before r21 has no flags to set.
unfoldable pub instance__set_flags : Instance → Answers → Option Instance
instance__set_flags inst a = elim inst.kbase_version_.type_ [
  | jm_pre_r21 ↦ some inst
  | _ ↦ if is_neg32 a.flags_ret then none else some inst
]

-- The buffer and its size: the first call gives the size, and the second fills the buffer, which is 0.
unfoldable pub instance__props_post_r21 : Answers → Option (List ℕ × ℕ)
instance__props_post_r21 a =
    if is_neg32 a.size_ret
    then none
    else if is_neg32 a.props_ret
    then none
    else some (take a.size_ret (a.buffer ++ replicate a.size_ret 0), a.size_ret)

-- The set of available types has one bit for each type.
unfoldable pub instance__backend_type_discover : Option Bitset
unfolding bitset__init bitset__set_bit
instance__backend_type_discover =
    bitset__set_bit (bitset__init (backend_number BackendType.kinstr_prfcnt_bad + 1))
      (backend_number BackendType.vinstr)

-- The types that were found are not looked at.
unfoldable pub backend_type_select : Bitset → BackendType
backend_type_select available_types = BackendType.vinstr

unfoldable pub instance__backend_type_probe : Instance → Option Instance
unfolding instance__backend_type_discover backend_type_select
instance__backend_type_probe inst = do
  available_types ← instance__backend_type_discover
  some (record inst { backend_type_ = backend_type_select available_types })

-- `memset` to 0
abbrev pub no_extents : BlockExtents
no_extents = record {
  num_block_types = 0;
  num_blocks_of_type_ = [];
  counters_per_block_ = 0;
  values_type_ = sample_values_uint32;
}

unfoldable pub instance__init_block_extents : Instance → Instance
unfolding construct_block_extents
instance__init_block_extents inst =
    let c = inst.constants_ in
    let extents =
      construct_block_extents (product_id__from_raw_gpu_id c.gpu_id) c.num_l2_slices
        c.num_shader_cores in
    elim inst.backend_type_ [
      | vinstr ↦ record inst { block_extents_ = extents }
      | vinstr_pre_r21 ↦ record inst { block_extents_ = extents }
      | _ ↦ record inst { block_extents_ = no_extents }
    ]

-- The memory that the functions do not set, and the rounds of the decoder's loop.
module _ (garbage : PropReader → ℕ) (stack : Locals) (fuel : ℕ) where
  unfoldable pub instance__init_constants : Instance → Answers → Outcome Instance
  unfolding instance__props_post_r21 prop_reader__init prop_decoder__run
  instance__init_constants inst a = elim (instance__props_post_r21 a) [
    | none ↦ exits
    | some (buffer, size) ↦
        prop_decoder__run garbage stack fuel (prop_reader__init buffer size) >=> λ c.
        finished (record inst { constants_ = c })
  ]

  -- `memory` is what stands in the instance before.
  unfoldable pub instance__init : (memory : Instance) (fd : ℕ) → Answers → Outcome Instance
  unfolding instance__version_check instance__set_flags instance__init_constants
      instance__backend_type_probe instance__init_block_extents
  instance__init memory fd a =
      let checked = (instance__version_check (record memory { fd_ = fd }) a).1 in
      elim (instance__set_flags checked a) [
        | none ↦ exits
        | some flagged ↦ instance__init_constants flagged a >=> λ known.
            elim (instance__backend_type_probe known) [
              | none ↦ undefined
              | some probed ↦ finished (instance__init_block_extents probed)
            ]
      ]

pub record Gpu : Type 0 where
  pub device_number_ : ℕ
  pub valid_ : Bool
  pub constants_ : Constants

unfoldable pub gpu__get_product_id : Gpu → ProductId
gpu__get_product_id gpu = product_id__from_raw_gpu_id gpu.constants_.gpu_id

-- `handle__create`: the descriptor of the device, or -1; `opened` is what `open` answers.
unfoldable pub handle__create : (opened : ℕ) → Option ℕ
handle__create opened = if is_neg32 opened then none else some opened

module _ (garbage : PropReader → ℕ) (stack : Locals) (fuel : ℕ) where
  unfoldable pub gpu__init : (memory : Instance) (opened device_number : ℕ) → Answers → Outcome Gpu
  unfolding handle__create instance__init
  gpu__init memory opened device_number a = elim (handle__create opened) [
    | none ↦
        finished
          (record { device_number_ = device_number; valid_ = false; constants_ = no_constants })
    | some fd ↦ instance__init garbage stack fuel memory fd a >=> λ inst.
        finished
          (record { device_number_ = device_number; valid_ = true; constants_ = inst.constants_ })
  ]
