-- ===== src/Device/Properties.antt =====
-- The properties of the GPU in include/instance.h: the reader, the decoder and the constants they
-- fill, with the codes of include/kbase_types.h. A failing `malloc` is left out.
-- An access outside the memory, and a shift by the width or more, have no meaning in C: `none`.
pub mod Reading
pub mod Ending
pub mod RoundTrip
pub mod Warps
mod Tests
use cl_mem_regulation.Common.{
  ℕ, zero, suc, ◌+◌, ◌-◌, ◌*◌, ◌/◌, ◌%◌, ◌^◌, ◌==◌, ltb, leb, if◌then◌else◌, ◌&&◌, ◌||◌, Option,
  none, some, List, [], ◌∷◌, length, get_elem?, set, drop, ◌>>=◌, bit_or, u8, u16, u32, u64, sub64,
  ones, Outcome, finished, undefined, out_of_fuel, exits, ◌>=>◌,
}
use cl_mem_regulation.Device.ProductId.{
  ProductId, midgard, product_id__from_raw_gpu_id, product_id__get_gpu_family,
  product_id__get_arch_major,
}
use cl_mem_regulation.Device.ExecEngines.{GetNumExecEnginesArgs, major_id, get_num_exec_engines}

-- include/constants.h
pub record Constants : Type 0 where
  pub gpu_id : ℕ
  pub fw_version : ℕ
  pub axi_bus_width : ℕ
  pub num_shader_cores : ℕ
  pub shader_core_mask : ℕ
  pub num_l2_slices : ℕ
  pub l2_slice_size : ℕ
  pub num_exec_engines : ℕ
  pub tile_size : ℕ
  pub warp_width : ℕ

abbrev pub no_constants : Constants
no_constants = record {
  gpu_id = 0;
  fw_version = 0;
  axi_bus_width = 0;
  num_shader_cores = 0;
  shader_core_mask = 0;
  num_l2_slices = 0;
  l2_slice_size = 0;
  num_exec_engines = 0;
  tile_size = 0;
  warp_width = 0;
}

unfoldable pub get_warp_width : ℕ → ℕ
unfolding product_id__get_gpu_family
get_warp_width raw_gpu_id =
    let pid = product_id__from_raw_gpu_id raw_gpu_id in
    let id = pid.product_id_ in
    let four =
      id == major_id 7 3
      || id == major_id 9 4
      || id == major_id 7 0
      || id == major_id 6 0
      || id == major_id 6 1 in
    let eight = id == major_id 7 2 || id == major_id 7 1 in
    let sixteen =
      id == major_id 9 1
      || id == major_id 9 3
      || id == major_id 9 0
      || id == major_id 9 2
      || id == major_id 9 5
      || id == major_id 10 4
      || id == major_id 10 3
      || id == major_id 10 7
      || id == major_id 10 2
      || id == major_id 11 3
      || id == major_id 11 2 in
    elim (product_id__get_gpu_family pid) [
      | midgard ↦ 1
      | _ ↦
          if four
          then 4
          else if eight
          then 8
          else if sixteen
          then 16
          else if ltb 11 (product_id__get_arch_major pid)
          then 16
          else 0
    ]

-- `data_` is the memory from the pointer on, up to the end of the buffer.
pub record PropReader : Type 0 where
  pub data_ : List ℕ
  pub size_ : ℕ

unfoldable pub prop_reader__init : List ℕ → ℕ → PropReader
prop_reader__init buffer size = record { data_ = buffer; size_ = size }

-- `ret |= data_[b] << (8 * b)` with `n` bytes to go, from byte `b` on.
unfoldable pub le_bytes : ℕ → (b : ℕ) → List ℕ → (ret : ℕ) → Option ℕ
le_bytes zero b data_ ret = some ret
le_bytes (suc n) b data_ ret = do
  d ← get_elem? data_ b
  le_bytes n (b + 1) data_ (bit_or ret (d * 2 ^ (8 * b)))

-- What the four readers share: `n` bytes are read onto `ret`, and the pointer moves on.
unfoldable pub le_read_bytes : ℕ → (ret : ℕ) → PropReader → Option (ℕ × PropReader)
unfolding le_bytes
le_read_bytes n ret reader = do
  value ← le_bytes n 0 reader.data_ ret
  some (value, record { data_ = drop n reader.data_; size_ = sub64 reader.size_ n })

-- The first two readers do not set `ret`: `garbage` is what its memory holds.
unfoldable pub prop_reader_le_read_bytes_uint8_t : ℕ → PropReader → Option (ℕ × PropReader)
unfolding le_read_bytes
prop_reader_le_read_bytes_uint8_t garbage reader = le_read_bytes 1 (u8 garbage) reader

unfoldable pub prop_reader_le_read_bytes_uint16_t : ℕ → PropReader → Option (ℕ × PropReader)
unfolding le_read_bytes
prop_reader_le_read_bytes_uint16_t garbage reader = le_read_bytes 2 (u16 garbage) reader

unfoldable pub prop_reader_le_read_bytes_uint32_t : PropReader → Option (ℕ × PropReader)
unfolding le_read_bytes
prop_reader_le_read_bytes_uint32_t reader = le_read_bytes 4 0 reader

unfoldable pub prop_reader_le_read_bytes_uint64_t : PropReader → Option (ℕ × PropReader)
unfolding le_read_bytes
prop_reader_le_read_bytes_uint64_t reader = le_read_bytes 8 0 reader

-- The property's id, and the code of its size.
unfoldable pub prop_decoder__to_prop_metadata : ℕ → ℕ × ℕ
prop_decoder__to_prop_metadata v = (u8 (v / 4), u8 (v % 4))

-- The `switch` on the size: each case has its test of what is left, and its reader.
unfoldable pub read_value : (garbage prop_size : ℕ) → PropReader → Option (ℕ × PropReader)
unfolding prop_reader_le_read_bytes_uint8_t prop_reader_le_read_bytes_uint16_t
    prop_reader_le_read_bytes_uint32_t prop_reader_le_read_bytes_uint64_t
read_value garbage prop_size reader =
    if prop_size == 0
    then prop_reader_le_read_bytes_uint8_t garbage reader
    else if prop_size == 1
    then prop_reader_le_read_bytes_uint16_t garbage reader
    else if prop_size == 2
    then prop_reader_le_read_bytes_uint32_t reader
    else prop_reader_le_read_bytes_uint64_t reader

-- The id, the value, and the reader after them; a buffer that is too short gives the id 0.
unfoldable pub prop_decoder__next : (garbage : ℕ) → PropReader → Option (ℕ × ℕ × PropReader)
unfolding prop_reader_le_read_bytes_uint32_t prop_decoder__to_prop_metadata read_value
prop_decoder__next garbage reader =
    let read : Option (ℕ × ℕ × PropReader) = (do
      (v, reader') ← prop_reader_le_read_bytes_uint32_t reader
      let prop_size = (prop_decoder__to_prop_metadata v).1
      let valued : Option (ℕ × ℕ × PropReader) = (do
        (value, reader'') ← read_value garbage prop_size reader'
        some ((prop_decoder__to_prop_metadata v).0, value, reader''))
      if ltb reader'.size_ (2 ^ prop_size) then some (0, 0, reader') else valued) in
    if ltb reader.size_ 4 then some (0, 0, reader) else read

-- The variables of `prop_decoder__run`.
pub record Locals : Type 0 where
  pub consts : Constants
  pub num_core_groups : ℕ
  pub core_mask : List ℕ
  pub raw_core_features_v : ℕ
  pub raw_thread_features_v : ℕ

-- `1UL << value`
unfoldable pub one_shifted : ℕ → Option ℕ
one_shifted value = if ltb value 64 then some (2 ^ value) else none

-- The `switch` on the id, by the numbers of `gpuprop_code`.
unfoldable pub take_property : (id value : ℕ) → Locals → Option Locals
unfolding get_warp_width one_shifted
take_property id value l =
    let c = l.consts in
    if id == 55
    then some (record l { consts = record c { gpu_id = value; warp_width = get_warp_width value } })
    else if id == 14
    then (do
      size ← one_shifted value
      some (record l { consts = record c { l2_slice_size = size } }))
    else if id == 15
    then some (record l { consts = record c { num_l2_slices = value } })
    else if id == 29
    then (do
      width ← one_shifted (value / 2 ^ 24 % 256)
      some (record l { consts = record c { axi_bus_width = width } }))
    else if id == 30
    then some (record l { raw_core_features_v = value })
    else if id == 62
    then some (record l { num_core_groups = value })
    else if id == 59
    then some (record l { raw_thread_features_v = value })
    else if leb 64 id && leb id 79
    then some (record l { core_mask = set l.core_mask (id - 64) value })
    else some l

-- The variables that `prop_decoder__run` starts with; `stack` is what its memory holds.
unfoldable pub start_locals : Locals → Locals
start_locals stack = record stack { consts = no_constants; num_core_groups = 0 }

-- What the readers find in `ret`, and the properties that are taken.
module _ (garbage : PropReader → ℕ) where
  -- The body of the loop of `prop_decoder__run`.
  unfoldable pub one_round : PropReader → Locals → Option (PropReader × Locals)
  unfolding prop_decoder__next take_property
  one_round reader l = do
    (id, value, reader') ← prop_decoder__next (garbage reader) reader
    l' ← take_property id value l
    some (reader', l')

  unfoldable pub decode_loop : ℕ → PropReader → Locals → Outcome Locals
  unfolding one_round
  decode_loop zero reader l = if reader.size_ == 0 then finished l else out_of_fuel
  decode_loop (suc fuel) reader l =
      let next : Outcome Locals = elim (one_round reader l) [
        | none ↦ undefined
        | some (reader', l') ↦ decode_loop fuel reader' l'
      ] in
      if reader.size_ == 0 then finished l else next

-- `shader_core_mask |= core_mask[i]` for `n` groups, from `i` on.
unfoldable pub or_masks : ℕ → (i : ℕ) → List ℕ → ℕ → Option ℕ
or_masks zero i core_mask m = some m
or_masks (suc n) i core_mask m = do
  w ← get_elem? core_mask i
  or_masks n (i + 1) core_mask (bit_or m w)

-- What follows the loop. `__builtin_popcount` takes an `unsigned int`.
unfoldable pub finish_constants : Locals → Option Constants
unfolding or_masks
finish_constants l = do
  mask ← or_masks l.num_core_groups 0 l.core_mask l.consts.shader_core_mask
  let cores = ones 32 (u32 mask)
  some (record l.consts {
    shader_core_mask = mask;
    num_shader_cores = cores;
    tile_size = 16;
    num_exec_engines = get_num_exec_engines (record {
      id = product_id__from_raw_gpu_id l.consts.gpu_id;
      core_count = u8 cores;
      core_features = u32 l.raw_core_features_v;
      thread_features = u32 l.raw_thread_features_v;
    });
  })

unfoldable pub prop_decoder__run :
    (garbage : PropReader → ℕ) (stack : Locals) (fuel : ℕ) → PropReader → Outcome Constants
unfolding decode_loop finish_constants start_locals
prop_decoder__run garbage stack fuel reader =
    decode_loop garbage fuel reader (start_locals stack) >=> λ l. elim (finish_constants l) [
      | none ↦ undefined
      | some c ↦ finished c
    ]
