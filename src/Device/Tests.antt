-- ===== src/Device/Tests.antt =====
-- Product ids and driver versions, and the theorems at them.
use cl_mem_regulation.Common.{◌≤◌, ◌≡◌, refl}
use cl_mem_regulation.Device.ProductId.{
  ProductId, GpuFamily, GpuFrontend, product_id__init_with_major, product_id__init,
  product_id__from_versions, product_id__get_arch_major, get_gpu_frontend,
  product_id__get_gpu_family, product_id__get_version_style, product_id__from_raw_gpu_id,
  product_id__init_with_raw_product_id, product_id__from_raw_product_id,
}
use cl_mem_regulation.Device.ExecEngines.{
  GetNumExecEnginesArgs, get_num_exec_engines, raw_id, major_id,
}
use cl_mem_regulation.Device.ExecEngines.Families.{get_num_exec_engines_bound}
use cl_mem_regulation.Device.Version.{
  KbaseVersion, jm_post_r21, kbase_version__compare, is_vinstr_available, is_gtux_or_later,
}

-- The id of a Mali G710, and its raw GPU id.
abbrev g710 : ProductId
g710 = product_id__init_with_major 10 2

g710_run :
    (g710.product_id_ ≡ 0xa002)
    × ((product_id__from_raw_gpu_id 0xa8720010).product_id_ ≡ 0xa002)
    × (get_gpu_frontend g710 ≡ GpuFrontend.csf)
    × (product_id__get_gpu_family g710 ≡ GpuFamily.valhall)
unfolding product_id__init_with_major product_id__init product_id__from_versions
    product_id__from_raw_gpu_id product_id__init_with_raw_product_id product_id__from_raw_product_id
    get_gpu_frontend product_id__get_gpu_family product_id__get_version_style
    product_id__get_arch_major
g710_run = (refl, refl, refl, refl)

-- A driver that is newer than the last one with vinstr.
abbrev newer : KbaseVersion
newer = record { major_ = 12; minor_ = 0; type_ = jm_post_r21 }

newer_run : is_vinstr_available newer g710 ≡ 1
unfolding is_vinstr_available kbase_version__compare is_gtux_or_later product_id__init_with_major
    product_id__init product_id__from_versions product_id__get_version_style
    product_id__get_arch_major
newer_run = refl

-- A Mali T760 with arbitrary registers.
abbrev t760 : GetNumExecEnginesArgs
t760 = record {
  id = product_id__init_with_raw_product_id 0x0760;
  core_count = 6;
  core_features = 77;
  thread_features = 0x2000;
}

t760_run : (t760.id.product_id_t60x ≡ 0x6956) × (get_num_exec_engines t760 ≡ 1)
unfolding product_id__init_with_raw_product_id product_id__init product_id__from_raw_product_id
    product_id__get_version_style get_num_exec_engines raw_id major_id product_id__init_with_major
    product_id__from_versions product_id__get_gpu_family
t760_run = (refl, refl)

get_num_exec_engines_bound_example :
    (get_num_exec_engines t760 ≤ 15)
    × (product_id__get_gpu_family t760.id ≡ GpuFamily.midgard
        → (1 ≤ get_num_exec_engines t760) × (get_num_exec_engines t760 ≤ 3))
get_num_exec_engines_bound_example = get_num_exec_engines_bound t760 t760_run.0
