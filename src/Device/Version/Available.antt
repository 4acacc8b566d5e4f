-- ===== src/Device/Version/Available.antt =====
-- Which driver versions are taken to have vinstr.
use cl_mem_regulation.Common.{◌<◌, ◌≡◌, ◌↔◌, arith, true, minus_one32, ◌⊎◌}
use cl_mem_regulation.Device.ProductId.{
  ProductId, GpuFrontend, GpuFamily, get_gpu_frontend, product_id__get_gpu_family,
}
use cl_mem_regulation.Device.Version.{
  KbaseVersion, kbase_version__compare, is_vinstr_available, is_gtux_or_later, jm_max_version,
  csf_max_version, jm_post_r21, csf,
}

-- Older by the major version, or by the minor one.
abbrev pub IsOlder : KbaseVersion → KbaseVersion → Type 0
IsOlder v w = (v.major_ < w.major_) ⊎ ((v.major_ ≡ w.major_) × (v.minor_ < w.minor_))

abbrev pub IsSame : KbaseVersion → KbaseVersion → Type 0
IsSame v w = (v.major_ ≡ w.major_) × (v.minor_ ≡ w.minor_)

-- The comparison is -1, 0 or 1 as the first version is older than the second, the same, or newer.
compare_lem :
    (v w : KbaseVersion)
    → (IsOlder v w × (kbase_version__compare v w ≡ minus_one32))
      ⊎ (IsSame v w × (kbase_version__compare v w ≡ 0))
      ⊎ (IsOlder w v × (kbase_version__compare v w ≡ 1))
unfolding kbase_version__compare
compare_lem v w = ground arith

-- Vinstr counts as unavailable on a GPU from GTUX on, and on a driver of exactly the last version;
-- on a newer driver it counts as available.
pub is_vinstr_available-zero :
    (v : KbaseVersion) (pid : ProductId)
    → (is_vinstr_available v pid ≡ 0) ↔ (
        (is_gtux_or_later pid ≡ true)
        ⊎ ((v.type_ ≡ jm_post_r21) × IsSame v jm_max_version)
        ⊎ ((v.type_ ≡ csf) × IsSame v csf_max_version))
unfolding is_vinstr_available kbase_version__compare
is_vinstr_available-zero v pid = ground arith

-- A GPU from GTUX on has the command stream front end, and one with that front end is of the Valhall
-- family.
frontend-family :
    (pid : ProductId)
    → (is_gtux_or_later pid ≡ true → get_gpu_frontend pid ≡ GpuFrontend.csf)
      × (get_gpu_frontend pid ≡ GpuFrontend.csf
          → product_id__get_gpu_family pid ≡ GpuFamily.valhall)
unfolding is_gtux_or_later get_gpu_frontend product_id__get_gpu_family
frontend-family pid = ground arith
