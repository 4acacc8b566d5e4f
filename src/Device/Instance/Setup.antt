-- ===== src/Device/Instance/Setup.antt =====
-- include/instance.h: what is true of an instance once it is made.
use cl_mem_regulation.Common.{
  ℕ, ◌≡◌, refl, true, none, some, List, replicate, ◌++◌, length-take, length-append,
  length-replicate, is_neg32, arith, Outcome, finished, undefined, out_of_fuel, exits, ◌>=>◌,
  finished-injective, Option-cases, inl, inr,
}
use cl_mem_regulation.Device.ProductId.{product_id__from_raw_gpu_id}
use cl_mem_regulation.Device.Properties.{Locals, PropReader, prop_reader__init}
use cl_mem_regulation.Device.Properties.Reading.{IsReader}
use cl_mem_regulation.Device.Extents.{construct_block_extents}
use cl_mem_regulation.Device.Instance.{
  Instance, Answers, BackendType, instance__version_check_post_r21, instance__version_check,
  instance__set_flags, instance__props_post_r21, instance__init_constants,
  instance__backend_type_probe, instance__backend_type_discover, backend_type_select,
  instance__init_block_extents, instance__init,
}

-- A driver that cannot tell its version goes unnoticed: the check answers 0 all the same, and the
-- version stays what the memory held.
version_check-unnoticed :
    (inst : Instance) (a : Answers)
    → is_neg32 a.version_ret ≡ true
    → instance__version_check inst a ≡ (0, inst)
unfolding instance__version_check instance__version_check_post_r21
version_check-unnoticed inst a h = rw h refl

-- The buffer of the properties is as long as the driver says, and the reader on it counts it.
pub props-IsReader :
    (a : Answers) (buffer : List ℕ) (size : ℕ)
    → instance__props_post_r21 a ≡ some (buffer, size)
    → IsReader (prop_reader__init buffer size)
unfolding instance__props_post_r21 prop_reader__init
props-IsReader a buffer size e =
    let whole = a.buffer ++ replicate a.size_ret 0 in
    let long = length-take a.size_ret whole (
      omega (
        arith,
        length-append a.buffer (replicate a.size_ret 0),
        length-replicate {A = ℕ} a.size_ret 0,
      )) in
    ground (arith, long)

pub record IsSetUp (inst : Instance) : Type 0 where
  pub by_vinstr : inst.backend_type_ ≡ BackendType.vinstr
  pub by_constants :
      inst.block_extents_
      ≡ construct_block_extents
          (product_id__from_raw_gpu_id inst.constants_.gpu_id)
          inst.constants_.num_l2_slices
          inst.constants_.num_shader_cores

probe-vinstr :
    (inst : Instance)
    → instance__backend_type_probe inst ≡ some (record inst { backend_type_ = BackendType.vinstr })
unfolding instance__backend_type_probe instance__backend_type_discover backend_type_select
probe-vinstr inst = refl

extents-IsSetUp :
    (known : Instance)
    → IsSetUp (instance__init_block_extents (record known { backend_type_ = BackendType.vinstr }))
unfolding instance__init_block_extents
extents-IsSetUp known = record { by_vinstr = refl; by_constants = refl }

-- The last steps of `instance__init`, on how its constants came out.
abbrev after_constants : Outcome Instance → Outcome Instance
after_constants o = o >=> λ known. elim (instance__backend_type_probe known) [
  | none ↦ undefined
  | some probed ↦ finished (instance__init_block_extents probed)
]

after_constants-IsSetUp :
    (o : Outcome Instance) (inst : Instance) → after_constants o ≡ finished inst → IsSetUp inst
unfolding instance__backend_type_probe instance__backend_type_discover backend_type_select
after_constants-IsSetUp (finished known) inst e =
    rw (finished-injective e) at (extents-IsSetUp known)
after_constants-IsSetUp undefined inst e = absurd cc
after_constants-IsSetUp out_of_fuel inst e = absurd cc
after_constants-IsSetUp exits inst e = absurd cc

module _ (garbage : PropReader → ℕ) (stack : Locals) (fuel : ℕ) where
  -- An instance that is made uses vinstr, and its blocks are those that its constants tell.
  pub init-IsSetUp :
      (memory inst : Instance) (fd : ℕ) (a : Answers)
      → instance__init garbage stack fuel memory fd a ≡ finished inst
      → IsSetUp inst
  unfolding instance__init
  init-IsSetUp memory inst fd a e =
      let checked = (instance__version_check (record memory { fd_ = fd }) a).1 in
      elim (Option-cases (instance__set_flags checked a)) [
        | inl n ↦ absurd (ground (arith, n))
        | inr (flagged, s) ↦
            after_constants-IsSetUp (instance__init_constants garbage stack fuel flagged a) inst
              (rw (s, instance__init) at e)
      ]
