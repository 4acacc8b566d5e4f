-- ===== src/Kernel/Init.antt =====
-- The first half of `cl_mem_reg_init` (cl_mem_reg.c): the checks of the parameters and the set-up of
-- the GPU devices, with what each failing call leaves behind, and their release in `cl_mem_reg_exit`.
pub mod Resources
mod Tests
use cl_mem_regulation.Common.{
  ℕ, ◌==◌, if◌then◌else◌, Bool, true, false, ◌||◌, Option, none, some, is_some, two32, ◌-◌,
  minus_one32, slt32, is_neg32,
}
use cl_mem_regulation.Kernel.State.{ClusterId, cl1, cl2}

-- Negative error codes, as the patterns of an `int`.
abbrev pub einval : ℕ
einval = two32 - 22

abbrev pub enodev : ℕ
enodev = two32 - 19

abbrev pub enomem : ℕ
enomem = two32 - 12

abbrev pub esrch : ℕ
esrch = two32 - 3

-- What the module holds for the GPU of a cluster.
pub record Held : Type 0 where
  pub kobj : Bool
  pub sysfs_file : Bool
  pub beats_memory : Bool
  pub chrdev : Bool
  pub class_ : Bool
  pub device : Bool

pub record Devices : Type 0 where
  pub held1 : Held
  pub held2 : Held

abbrev pub held : Devices → ClusterId → Held
held d cl1 = d.held1
held d cl2 = d.held2

abbrev pub put_held : Devices → ClusterId → Held → Devices
put_held d cl1 h = record d { held1 = h }
put_held d cl2 h = record d { held2 = h }

abbrev pub none_held : Held
none_held = record {
  kobj = false;
  sysfs_file = false;
  beats_memory = false;
  chrdev = false;
  class_ = false;
  device = false;
}

-- What the kernel's calls return for one cluster: `major` is negative, and an error is a code, when
-- the call fails.
pub record GpuCalls : Type 0 where
  pub kobject_create : Bool
  pub sysfs_create : Bool
  pub task : Option ℕ
  pub kmalloc : Bool
  pub major : ℕ
  pub class_error : Option ℕ
  pub device_error : Option ℕ

pub data Setup : Type 0 where
  failed : (error : ℕ) → Devices → Setup
  ready : Devices → Setup

-- `g_gpu_profiling`, or no valid core.
unfoldable pub check_core : ℕ → Option Bool
check_core core =
    if slt32 core minus_one32 || slt32 8 core
    then none
    else if core == minus_one32
    then some false
    else some true

unfoldable pub check_period : ℕ → Bool
check_period period = if slt32 period 0 || slt32 1000000 period then false else true

-- `kfree` of both clusters' memory.
abbrev free_beats : Devices → Devices
free_beats d = record {
  held1 = record d.held1 { beats_memory = false };
  held2 = record d.held2 { beats_memory = false };
}

-- The block for one cluster: each failing call returns at once, with what it releases before.
unfoldable pub setup_gpu : ClusterId → GpuCalls → Devices → Setup
setup_gpu k calls d =
    let h = held d k in
    let files = put_held d k (record h { kobj = true; sysfs_file = true }) in
    let memory = put_held d k (record h { kobj = true; sysfs_file = true; beats_memory = true }) in
    let registered =
      put_held d k
        (record h { kobj = true; sysfs_file = true; beats_memory = true; chrdev = true }) in
    let complete = put_held d k (record {
      kobj = true;
      sysfs_file = true;
      beats_memory = true;
      chrdev = true;
      class_ = true;
      device = true;
    }) in
    let device : Setup = elim calls.device_error [
      | some e ↦ Setup.failed e (free_beats memory)
      | none ↦ Setup.ready complete
    ] in
    let class : Setup = elim calls.class_error [
      | some e ↦ Setup.failed e (free_beats memory)
      | none ↦ device
    ] in
    let rest = if is_neg32 calls.major then Setup.failed calls.major memory else class in
    let allocated = if calls.kmalloc then rest else Setup.failed enomem files in
    let found = if is_some calls.task then allocated else Setup.failed esrch files in
    if calls.kobject_create
    then (if calls.sysfs_create then found else Setup.failed enomem d)
    else Setup.failed enomem d

-- The blocks for both clusters, each under its flag.
unfoldable pub setup_gpus : (profile1 profile2 : Bool) → GpuCalls → GpuCalls → Devices → Setup
unfolding setup_gpu
setup_gpus profile1 profile2 calls1 calls2 d =
    let second : Devices → Setup =
      λ d'. if profile2 then setup_gpu cl2 calls2 d' else Setup.ready d' in
    if profile1
    then elim (setup_gpu cl1 calls1 d) [ failed e d' ↦ Setup.failed e d' | ready d' ↦ second d' ]
    else second d

-- The file is removed with its directory, if there is one. The last part of `cl_mem_reg_exit`, for one cluster and for both.
unfoldable pub exit_gpu : ClusterId → Devices → Devices
exit_gpu k d =
    let h = held d k in
    put_held d k (record {
      kobj = false;
      sysfs_file = if h.kobj then false else h.sysfs_file;
      device = false;
      class_ = false;
      chrdev = false;
      beats_memory = false;
    })

unfoldable pub exit_gpus : (profile1 profile2 : Bool) → Devices → Devices
unfolding exit_gpu
exit_gpus profile1 profile2 d =
    let d' = if profile1 then exit_gpu cl1 d else d in if profile2 then exit_gpu cl2 d' else d'
