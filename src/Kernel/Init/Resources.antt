-- ===== src/Kernel/Init/Resources.antt =====
-- What is held after the set-up of the GPU devices, and after the exit.
use cl_mem_regulation.Common.{
  ℕ, ◌<◌, ◌≤◌, ◌≡◌, ◌≢◌, ◌↔◌, ◌⊎◌, inl, inr, refl, arith, Bool, true, false, some, minus_one32,
  two32, if◌then◌else◌,
}
use cl_mem_regulation.Kernel.State.{ClusterId, cl1, cl2}
use cl_mem_regulation.Kernel.Init.{
  Devices, held, none_held, GpuCalls, Setup, failed, ready, setup_gpu, setup_gpus, exit_gpu,
  exit_gpus, check_core,
}

Setup-cases :
    (s : Setup) → ((e : ℕ) × (d : Devices) × (s ≡ failed e d)) ⊎ ((d : Devices) × (s ≡ ready d))
Setup-cases (failed e d) = inl (e, d, refl)
Setup-cases (ready d) = inr (d, refl)

-- A GPU profiling core is accepted up to 8, which is no core, and -1 switches the profiling off.
check_core_lem :
    (core : ℕ)
    → core < two32
    → ((check_core core ≡ some true) ↔ (core ≤ 8))
      × ((check_core core ≡ some false) ↔ (core ≡ minus_one32))
unfolding check_core
check_core_lem core small = ground arith

-- When the set-up for a cluster fails after its sysfs file was made, the file and its directory stay.
pub setup_gpu-leak :
    (k : ClusterId) (calls : GpuCalls) (d d' : Devices) (e : ℕ)
    → setup_gpu k calls d ≡ failed e d'
    → calls.kobject_create ≡ true
    → calls.sysfs_create ≡ true
    → ((held d' k).kobj ≡ true) × ((held d' k).sysfs_file ≡ true)
unfolding setup_gpu
setup_gpu-leak k calls d d' e fails dir file = ground arith

-- A set-up that succeeds made the directory of its cluster, and leaves the other cluster alone.
setup_gpu-ready :
    (k : ClusterId) (calls : GpuCalls) (d d' : Devices)
    → setup_gpu k calls d ≡ ready d'
    → ((held d' k).kobj ≡ true) × ((j : ClusterId) → j ≢ k → held d' j ≡ held d j)
unfolding setup_gpu
setup_gpu-ready k calls d d' ok = (ground arith, λ j h. ground arith)

-- The module holds nothing for the GPUs.
abbrev pub nothing : Devices
nothing = record { held1 = none_held; held2 = none_held }

first_ready :
    (profile2 : Bool) (calls1 calls2 : GpuCalls) (d' : Devices)
    → setup_gpus true profile2 calls1 calls2 nothing ≡ ready d'
    → (d1 : Devices) × (setup_gpu cl1 calls1 nothing ≡ ready d1)
      × ((if profile2 then setup_gpu cl2 calls2 d1 else ready d1) ≡ ready d')
unfolding setup_gpus
first_ready profile2 calls1 calls2 d' ok = elim (Setup-cases (setup_gpu cl1 calls1 nothing)) [
  | inl (e, d1, fails) ↦ absurd cc
  | inr (d1, good) ↦ (d1, good, rw (good, setup_gpus) at ok)
]

-- When the set-up succeeds with nothing held before, the exit under the same flags releases everything
-- that it took.
pub setup_exit :
    (profile1 profile2 : Bool) (calls1 calls2 : GpuCalls) (d' : Devices)
    → setup_gpus profile1 profile2 calls1 calls2 nothing ≡ ready d'
    → exit_gpus profile1 profile2 d' ≡ nothing
unfolding setup_gpus exit_gpus exit_gpu
setup_exit true true calls1 calls2 d' ok =
    let (d1, good, rest) = first_ready true calls1 calls2 d' ok in
    let first = setup_gpu-ready cl1 calls1 nothing d1 good in
    let second = setup_gpu-ready cl2 calls2 d1 d' rest in
    ground (arith, first.0, second.0, second.1 cl1)
setup_exit true false calls1 calls2 d' ok =
    let (d1, good, rest) = first_ready false calls1 calls2 d' ok in
    let first = setup_gpu-ready cl1 calls1 nothing d1 good in
    ground (arith, first.0, first.1 cl2, rest)
setup_exit false true calls1 calls2 d' ok =
    let second = setup_gpu-ready cl2 calls2 nothing d' ok in ground (arith, second.0, second.1 cl1)
setup_exit false false calls1 calls2 d' ok = ground arith
