-- ===== src/Kernel/Init/Tests.antt =====
-- Runs of the GPU set-up, and the theorems at them.
use cl_mem_regulation.Common.{◌≡◌, refl, true, none, some}
use cl_mem_regulation.Kernel.State.{cl1}
use cl_mem_regulation.Kernel.Init.{
  Devices, GpuCalls, failed, ready, setup_gpu, setup_gpus, exit_gpus, esrch, Held,
}
use cl_mem_regulation.Kernel.Init.Resources.{setup_exit, nothing}

abbrev good_calls : GpuCalls
good_calls = record {
  kobject_create = true;
  sysfs_create = true;
  task = some 812;
  kmalloc = true;
  major = 241;
  class_error = none;
  device_error = none;
}

-- There is no profiler with the given pid.
abbrev no_profiler : GpuCalls
no_profiler = record good_calls { task = none }

abbrev files_left : Devices
files_left = record nothing { held1 = record nothing.held1 { kobj = true; sysfs_file = true } }

no_profiler_run : setup_gpu cl1 no_profiler nothing ≡ failed esrch files_left
unfolding setup_gpu
no_profiler_run = refl

abbrev all_held : Held
all_held = record {
  kobj = true;
  sysfs_file = true;
  beats_memory = true;
  chrdev = true;
  class_ = true;
  device = true;
}

good_run :
    setup_gpus true true good_calls good_calls nothing
    ≡ ready (record { held1 = all_held; held2 = all_held })
unfolding setup_gpus setup_gpu
good_run = refl

setup_exit_example : exit_gpus true true (record { held1 = all_held; held2 = all_held }) ≡ nothing
setup_exit_example =
    setup_exit true true good_calls good_calls (record { held1 = all_held; held2 = all_held })
      good_run
