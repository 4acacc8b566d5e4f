-- ===== src/Device/ExecEngines.antt =====
-- include/num_exec_engines.h. `x & 0xF` is the remainder by 16, and `x & 0xFFFF` that by 65536.
pub mod Families
use cl_mem_regulation.Common.{ℕ, ◌%◌, ◌==◌, if◌then◌else◌, ◌&&◌, ◌||◌, u8, u16}
use cl_mem_regulation.Device.ProductId.{
  ProductId, GpuFamily, midgard, product_id__init, product_id__init_with_major,
  product_id__init_with_raw_product_id, product_id__get_gpu_family,
}

pub record GetNumExecEnginesArgs : Type 0 where
  pub id : ProductId
  pub core_count : ℕ
  pub core_features : ℕ
  pub thread_features : ℕ

unfoldable pub get_num_exec_engines_args__init : GetNumExecEnginesArgs
get_num_exec_engines_args__init = record {
  id = product_id__init;
  core_count = 0;
  core_features = 0;
  thread_features = 0;
}

-- The message for two products has no effect on the result.
unfoldable pub max_register : ProductId → ℕ → ℕ
max_register pid raw_thread_features = raw_thread_features % 65536

-- The ids that the function compares with, by the versions of a product.
unfoldable pub major_id : ℕ → ℕ → ℕ
unfolding product_id__init_with_major
major_id arch product = (product_id__init_with_major arch product).product_id_

unfoldable pub raw_id : ℕ → ℕ
unfolding product_id__init_with_raw_product_id
raw_id raw = (product_id__init_with_raw_product_id raw).product_id_

-- The two switches over `core_variant`.
unfoldable pub engines_of_variant : ℕ → ℕ
engines_of_variant v = if v == 0 || v == 1 then 1 else if v == 2 || v == 3 || v == 4 then 2 else 0

unfoldable pub engines_of_g720_variant : ℕ → ℕ
engines_of_g720_variant v = if v == 1 then 1 else if v == 4 then 2 else 0

unfoldable pub get_num_exec_engines : GetNumExecEnginesArgs → ℕ
unfolding max_register major_id raw_id engines_of_variant engines_of_g720_variant
    product_id__get_gpu_family
get_num_exec_engines args =
    let id = args.id.product_id_ in
    let variant = args.core_features % 16 in
    let small = args.core_count == 1 && max_register args.id args.thread_features == 0x2000 in
    if id == raw_id 0x0830
    then 2
    else if id == raw_id 0x0860
    then 2
    else if id == raw_id 0x0880
    then 3
    else if id == major_id 7 3
    then (if small then 1 else 2)
    else if id == major_id 7 0
    then (if small then 1 else 3)
    else if id == major_id 7 2
    then variant
    else if id == major_id 9 1
    then 1
    else if id == major_id 9 3
    then 1
    else if id == major_id 9 4
    then 1
    else if id == major_id 6 0
    then 3
    else if id == major_id 6 1
    then 3
    else if id == major_id 7 1
    then 3
    else if id == major_id 9 0
    then 1
    else if id == major_id 9 2
    then 1
    else if id == major_id 9 5
    then 1
    else if id == major_id 10 4
    then engines_of_variant variant
    else if id == major_id 10 3
    then engines_of_variant variant
    else if id == major_id 10 7
    then 2
    else if id == major_id 10 2
    then 2
    else if id == major_id 11 3
    then engines_of_variant variant
    else if id == major_id 11 2
    then engines_of_variant variant
    else if id == major_id 12 0
    then engines_of_g720_variant variant
    else if id == major_id 12 2
    then engines_of_g720_variant variant
    else if id == major_id 12 2
    then engines_of_g720_variant variant
    else elim (product_id__get_gpu_family args.id) [ midgard ↦ 1 | _ ↦ 0 ]
