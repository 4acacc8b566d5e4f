-- ===== src/Device/Version.antt =====
-- include/kbase_version.h and include/backend_type.h
pub mod Available
use cl_mem_regulation.Common.{
  ℕ, ◌==◌, ltb, leb, if◌then◌else◌, Bool, true, false, not, ◌&&◌, minus_one32,
}
use cl_mem_regulation.Device.ProductId.{
  ProductId, VersionStyle, arch_product_major, product_id__get_version_style,
  product_id__get_arch_major,
}

pub data IoctlIfaceType : Type 0 where
  jm_pre_r21 jm_post_r21 csf : IoctlIfaceType

pub record KbaseVersion : Type 0 where
  pub major_ : ℕ
  pub minor_ : ℕ
  pub type_ : IoctlIfaceType

unfoldable pub kbase_version__init : KbaseVersion
kbase_version__init = record { major_ = 0; minor_ = 0; type_ = IoctlIfaceType.csf }

unfoldable pub kbase_version__init_with_args : ℕ → ℕ → IoctlIfaceType → KbaseVersion
kbase_version__init_with_args major minor type = record {
  major_ = major;
  minor_ = minor;
  type_ = type;
}

unfoldable pub kbase_version__compare : KbaseVersion → KbaseVersion → ℕ
kbase_version__compare lhs rhs =
    if ltb lhs.major_ rhs.major_
    then minus_one32
    else if ltb rhs.major_ lhs.major_
    then 1
    else if ltb lhs.minor_ rhs.minor_
    then minus_one32
    else if ltb rhs.minor_ lhs.minor_
    then 1
    else 0

unfoldable pub is_gtux_or_later : ProductId → Bool
unfolding product_id__get_version_style product_id__get_arch_major
is_gtux_or_later pid = elim (product_id__get_version_style pid pid.product_id_) [
  | arch_product_major ↦ leb 11 (product_id__get_arch_major pid)
  | _ ↦ false
]

-- The last versions before kinstr_prfcnt, by their type.
abbrev pub jm_max_version : KbaseVersion
jm_max_version = record { major_ = 11; minor_ = 40; type_ = IoctlIfaceType.jm_post_r21 }

abbrev pub csf_max_version : KbaseVersion
csf_max_version = record { major_ = 1; minor_ = 21; type_ = IoctlIfaceType.csf }

-- The result is an `int` that stands for a truth value.
unfoldable pub is_vinstr_available : KbaseVersion → ProductId → ℕ
unfolding kbase_version__compare is_gtux_or_later
is_vinstr_available version pid = if is_gtux_or_later pid then 0 else elim version.type_ [
  | jm_pre_r21 ↦ 1
  | jm_post_r21 ↦ kbase_version__compare version jm_max_version
  | csf ↦ kbase_version__compare version csf_max_version
]
