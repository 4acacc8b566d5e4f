-- ===== src/Device/ProductId/Majors.antt =====
-- The major versions in a product id, and what they say of the GPU.
use cl_mem_regulation.Common.{
  ℕ, zero, suc, ◌<◌, ◌≡◌, refl, arith, true, Bool, ◌&&◌, ◌==◌, ℕ_discrete,
}
use cl_mem_regulation.Device.ProductId.{
  product_id__init_with_major, product_id__get_arch_major, product_id__get_product_major,
  product_id__init, product_id__from_versions,
}

-- A test of all numbers below `n`.
abbrev all_below : ℕ → (ℕ → Bool) → Bool
all_below zero f = true
all_below (suc n) f = f n && all_below n f

all_below_lem : (n : ℕ) (f : ℕ → Bool) (i : ℕ) → all_below n f ≡ true → i < n → f i ≡ true
all_below_lem zero f i h lt = absurd (omega arith)
all_below_lem (suc n) f i h lt = elim (ℕ_discrete i n) [
  | yes last ↦ rw last (ground arith)
  | no before ↦ all_below_lem n f i (ground arith) (omega arith)
]

abbrev keeps_majors : ℕ → ℕ → Bool
keeps_majors a p =
    (product_id__get_arch_major (product_id__init_with_major a p) == a)
    && (product_id__get_product_major (product_id__init_with_major a p) == p)

all_majors : all_below 16 (λ a. all_below 16 (keeps_majors a)) ≡ true
unfolding product_id__get_arch_major product_id__get_product_major product_id__init_with_major
    product_id__init product_id__from_versions
all_majors = refl

-- A product id that is made of two versions of four bits gives them back.
init_with_major_round :
    (a p : ℕ)
    → a < 16
    → p < 16
    → (product_id__get_arch_major (product_id__init_with_major a p) ≡ a)
      × (product_id__get_product_major (product_id__init_with_major a p) ≡ p)
init_with_major_round a p ha hp = ground (
  arith,
  all_below_lem 16 (keeps_majors a) p
      (all_below_lem 16 (λ a. all_below 16 (keeps_majors a)) a all_majors ha) hp,
)
