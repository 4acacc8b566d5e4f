-- ===== src/Device/ExecEngines/Families.antt =====
-- How many execution engines a GPU can have.
use cl_mem_regulation.Common.{◌<◌, ◌≤◌, ◌≡◌, ◌⊎◌, refl, arith}
use cl_mem_regulation.Device.ProductId.{
  ProductId, GpuFamily, product_id__get_gpu_family, product_id__get_version_style,
  product_id__init_with_major, product_id__init, product_id__from_versions,
}
use cl_mem_regulation.Device.ExecEngines.{
  GetNumExecEnginesArgs, get_num_exec_engines, major_id, engines_of_variant,
  engines_of_g720_variant,
}

-- The ids that are made of versions.
major_ids :
    (major_id 7 3 ≡ 0x7003)
    × (major_id 7 0 ≡ 0x7000)
    × (major_id 7 2 ≡ 0x7002)
    × (major_id 9 1 ≡ 0x9001)
    × (major_id 9 3 ≡ 0x9003)
    × (major_id 9 4 ≡ 0x9004)
    × (major_id 6 0 ≡ 0x6000)
    × (major_id 6 1 ≡ 0x6001)
    × (major_id 7 1 ≡ 0x7001)
    × (major_id 9 0 ≡ 0x9000)
    × (major_id 9 2 ≡ 0x9002)
    × (major_id 9 5 ≡ 0x9005)
    × (major_id 10 4 ≡ 0xa004)
    × (major_id 10 3 ≡ 0xa003)
    × (major_id 10 7 ≡ 0xa007)
    × (major_id 10 2 ≡ 0xa002)
    × (major_id 11 3 ≡ 0xb003)
    × (major_id 11 2 ≡ 0xb002)
    × (major_id 12 0 ≡ 0xc000)
    × (major_id 12 2 ≡ 0xc002)
unfolding major_id product_id__init_with_major product_id__init product_id__from_versions
major_ids = (
  refl, refl, refl, refl, refl, refl, refl, refl, refl, refl, refl, refl, refl, refl, refl, refl,
  refl, refl, refl, refl,
)

-- The ids of the Midgard family.
midgard_ids :
    (id : ProductId)
    → id.product_id_t60x ≡ 0x6956
    → product_id__get_gpu_family id ≡ GpuFamily.midgard
    → (id.product_id_ ≡ 0x6956) ⊎ (id.product_id_ < 0x1000)
unfolding product_id__get_gpu_family product_id__get_version_style
midgard_ids id std family = ground arith

midgard_bound :
    (args : GetNumExecEnginesArgs)
    → product_id__get_gpu_family args.id ≡ GpuFamily.midgard
    → (args.id.product_id_ ≡ 0x6956) ⊎ (args.id.product_id_ < 0x1000)
    → (1 ≤ get_num_exec_engines args) × (get_num_exec_engines args ≤ 3)
unfolding get_num_exec_engines
midgard_bound args family legacy = ground (arith, major_ids)

-- No GPU has more than fifteen execution engines, and one of the Midgard family has one to three,
-- whatever its registers say. The product id carries the standard id of the T60x.
pub get_num_exec_engines_bound :
    (args : GetNumExecEnginesArgs)
    → args.id.product_id_t60x ≡ 0x6956
    → (get_num_exec_engines args ≤ 15)
      × (product_id__get_gpu_family args.id ≡ GpuFamily.midgard
          → (1 ≤ get_num_exec_engines args) × (get_num_exec_engines args ≤ 3))
unfolding get_num_exec_engines engines_of_variant engines_of_g720_variant
get_num_exec_engines_bound args std =
    (ground arith, λ family. midgard_bound args family (midgard_ids args.id std family))
