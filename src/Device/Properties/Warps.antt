-- ===== src/Device/Properties/Warps.antt =====
-- include/instance.h: the widths that `get_warp_width` answers.
use cl_mem_regulation.Common.{ℕ, ◌≡◌, ◌⊎◌, ◌==◌, Bool, true, ◌||◌, arith}
use cl_mem_regulation.Device.ProductId.{
  midgard, product_id__from_raw_gpu_id, product_id__get_gpu_family,
}
use cl_mem_regulation.Device.Properties.{get_warp_width}

abbrev pub is_width : ℕ → Bool
is_width w = w == 0 || w == 4 || w == 8 || w == 16

-- A Midgard GPU has no warps, and any other has one of 4, 8 or 16 lanes, where it is known.
get_warp_width_lem :
    (raw_gpu_id : ℕ)
    → ((product_id__get_gpu_family (product_id__from_raw_gpu_id raw_gpu_id) ≡ midgard)
        × (get_warp_width raw_gpu_id ≡ 1))
      ⊎ (is_width (get_warp_width raw_gpu_id) ≡ true)
unfolding get_warp_width
get_warp_width_lem raw = ground arith
