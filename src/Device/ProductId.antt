-- ===== src/Device/ProductId.antt =====
-- include/product_id.h
pub mod Majors
use cl_mem_regulation.Common.{ℕ, ◌*◌, ◌/◌, ◌%◌, ◌^◌, ◌==◌, ltb, if◌then◌else◌, u32}
use Prim.Native.Nat.{bit_and, bit_or}

pub data GpuFamily : Type 0 where
  midgard bifrost valhall : GpuFamily

pub data GpuFrontend : Type 0 where
  jm csf : GpuFrontend

pub data VersionStyle : Type 0 where
  legacy_t60x legacy_txxx arch_product_major : VersionStyle

pub record ProductId : Type 0 where
  pub product_id_mask_legacy : ℕ
  pub product_id_mask_modern : ℕ
  pub product_id_t60x : ℕ
  pub arch_major_shift : ℕ
  pub version_mask : ℕ
  pub product_id_ : ℕ

unfoldable pub product_id__init : ProductId
product_id__init = record {
  product_id_mask_legacy = 0xffff;
  product_id_mask_modern = 0xf00f;
  product_id_t60x = 0x6956;
  arch_major_shift = 12;
  version_mask = 0xf;
  product_id_ = 0;
}

unfoldable pub product_id__get_version_style : ProductId → ℕ → VersionStyle
product_id__get_version_style product_id raw_product_id =
    if raw_product_id == product_id.product_id_t60x
    then VersionStyle.legacy_t60x
    else if ltb raw_product_id 0x1000
    then VersionStyle.legacy_txxx
    else VersionStyle.arch_product_major

unfoldable pub product_id__from_raw_product_id : ProductId → ℕ → ℕ
unfolding product_id__get_version_style
product_id__from_raw_product_id product_id raw_product_id =
    elim (product_id__get_version_style product_id raw_product_id) [
      | arch_product_major ↦ bit_and raw_product_id product_id.product_id_mask_modern
      | _ ↦ bit_and raw_product_id product_id.product_id_mask_legacy
    ]

unfoldable pub product_id__from_versions : ProductId → ℕ → ℕ → ℕ
product_id__from_versions product_id arch_major product_major =
    bit_or (u32 (arch_major * 2 ^ product_id.arch_major_shift)) product_major

unfoldable pub product_id__init_with_raw_product_id : ℕ → ProductId
unfolding product_id__init product_id__from_raw_product_id
product_id__init_with_raw_product_id raw_product_id = record product_id__init {
  product_id_ = product_id__from_raw_product_id product_id__init raw_product_id;
}

unfoldable pub product_id__init_with_major : ℕ → ℕ → ProductId
unfolding product_id__init product_id__from_versions
product_id__init_with_major arch_major product_major = record product_id__init {
  product_id_ = product_id__from_versions product_id__init arch_major product_major;
}

unfoldable pub product_id__from_raw_gpu_id : ℕ → ProductId
unfolding product_id__init_with_raw_product_id
product_id__from_raw_gpu_id gpu_id =
    product_id__init_with_raw_product_id (u32 (bit_and (gpu_id / 2 ^ 16) 0xffff))

unfoldable pub product_id__get_product_major : ProductId → ℕ
product_id__get_product_major product_id = bit_and product_id.product_id_ product_id.version_mask

unfoldable pub product_id__get_arch_major : ProductId → ℕ
product_id__get_arch_major product_id =
    bit_and (product_id.product_id_ / 2 ^ product_id.arch_major_shift) product_id.version_mask

unfoldable pub product_id__get_gpu_family : ProductId → GpuFamily
unfolding product_id__get_version_style product_id__get_arch_major
product_id__get_gpu_family product_id =
    elim (product_id__get_version_style product_id product_id.product_id_) [
      | arch_product_major ↦
          if ltb (product_id__get_arch_major product_id) 9
          then GpuFamily.bifrost
          else GpuFamily.valhall
      | _ ↦ GpuFamily.midgard
    ]

unfoldable pub get_gpu_frontend : ProductId → GpuFrontend
unfolding product_id__get_version_style product_id__get_arch_major
get_gpu_frontend product_id =
    elim (product_id__get_version_style product_id product_id.product_id_) [
      | arch_product_major ↦
          if ltb (product_id__get_arch_major product_id) 0xa
          then GpuFrontend.jm
          else GpuFrontend.csf
      | _ ↦ GpuFrontend.jm
    ]
